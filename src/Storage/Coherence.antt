-- ===== src/Storage/Coherence.antt =====
-- The relation between an order in the cache and its row, field by field. Times lose what a TIMESTAMP
-- column does not keep.
pub mod Batches
use ozon_final.Base.{
  ℕ, String, ◌≡◌, refl, sym, ◌≢◌, ◌⊎◌, inl, inr, ap, ◌∙◌, Bool, true, false, not, Option, none,
  some, List, [], ◌∷◌, ◌++◌, keep, if◌then◌else◌, ◌==◌, eq_iff, arith,
}
use mathlib.Core.Path.{subst}
use mathlib.Core.Option
use ozon_final.Base.Dict.{Dict, lookup, lookup-insert, lookup-remove}
use ozon_final.Repository.{Order}
use ozon_final.World.{Env}
use ozon_final.Cache
use ozon_final.Postgres.Orders.{find_order, order_row, set_order, update_rows}
use ozon_final.Postgres.Orders.Lookup.{
  id-find_order, find_order-append, find_order-remove, find_order-update, or_else,
}
use ozon_final.Storage.Orders.{changed}

-- What a column has kept of a time, it keeps again.
pub record IsStable (env : Env) : Type 0 where
  pub stored_again : (t : ℕ) → env.stored_time (env.stored_time t) ≡ env.stored_time t

-- Every row is what the columns keep of it, and every order in the cache stands under its id and has its
-- row, or else is one that `P` says may be there.
pub record Known (env : Env) (P : String → Order → Type 0) (os : List Order) (c : Dict Order)
    : Type 0 where
  pub stored : (id : String) (o : Order) → find_order id os ≡ some o → order_row env o ≡ o
  pub coherent :
      (id : String) (o : Order)
      → lookup id c ≡ some o
      → ((o.id ≡ id) × (find_order id os ≡ some (order_row env o))) ⊎ P id o

-- Every order in the cache has its row.
abbrev pub InSync : Env → List Order → Dict Order → Type 0
InSync env = Known env (λ _ _. ⊥)

pub InSync-row :
    (env : Env) (os : List Order) (c : Dict Order)
    → InSync env os c
    → (id : String) (o : Order) → lookup id c ≡ some o
    → (o.id ≡ id) × (find_order id os ≡ some (order_row env o))
InSync-row env os c h id o e = by_case (h.coherent id o e)
  where
    by_case :
        ((o.id ≡ id) × (find_order id os ≡ some (order_row env o))) ⊎ ⊥
        → (o.id ≡ id) × (find_order id os ≡ some (order_row env o))
    by_case (inl k) = k
    by_case (inr k) = absurd k

-- The rows have changed at one id only.
abbrev pub Effect : String → Option Order → List Order → List Order → Type 0
Effect id x os os' = (j : String) → find_order j os' ≡ (if id == j then x else find_order j os)

module _ (env : Env) (stable : IsStable env) where
  pub order_row_idem : (o : Order) → order_row env (order_row env o) ≡ order_row env o
  order_row_idem o = λ i. record o {
    storage_until = stable.stored_again o.storage_until i;
    created_at = stable.stored_again o.created_at i;
    updated_at = stable.stored_again o.updated_at i;
  }

  module _ {P : String → Order → Type 0} (os os' : List Order) (c : Dict Order)
      (h : Known env P os c) where
    Effect-stored :
        (id : String) (x : Option Order)
        → ((y : Order) → x ≡ some y → order_row env y ≡ y)
        → Effect id x os os'
        → (j : String) (o : Order) → find_order j os' ≡ some o
        → order_row env o ≡ o
    Effect-stored id x row e j o found = ground (arith, e j, row o, h.stored j o)

    -- An order that is written is put into the cache, or deleted there if it is not active.
    pub set-Known :
        (o : Order) → Effect o.id (some (order_row env o)) os os' → Known env P os' (Cache.set o c)
    unfolding Cache.set Cache.delete
    set-Known o e = record {
      stored =
          Effect-stored o.id (some (order_row env o))
            (λ y q.
              let same : order_row env o ≡ y = cc in
              subst (λ z. order_row env z ≡ z) same (order_row_idem o))
            e;
      coherent = λ j x found. ground (
        arith,
        e j,
        lookup-insert o.id j o c,
        lookup-remove o.id j c,
        eq_iff o.id j,
        h.coherent j x,
      );
    }

    -- An order that is written or deleted leaves the cache.
    pub delete-Known :
        (id : String) (x : Option Order)
        → ((y : Order) → x ≡ some y → order_row env y ≡ y)
        → Effect id x os os'
        → Known env P os' (Cache.delete id c)
    unfolding Cache.delete
    delete-Known id x row e = record {
      stored = Effect-stored id x row e;
      coherent = λ j y found. ground (arith, e j, lookup-remove id j c, h.coherent j y);
    }

-- The effects of the statements.
pub append-Effect :
    (os : List Order) (o : Order)
    → find_order o.id os ≡ none
    → Effect o.id (some o) os (os ++ o ∷ [])
append-Effect os o fresh j = ground (arith, find_order-append j os o, eq_iff o.id j)

pub remove-Effect :
    (os : List Order) (id : String) → Effect id none os (keep (λ o. not (o.id == id)) os)
remove-Effect os id j = find_order-remove id j os

-- A row that was read and changed is written back as its new struct.
pub update-Effect :
    (env : Env) (os : List Order) (o : Order) (status : String) (at : ℕ)
    → find_order o.id os ≡ some o
    → order_row env o ≡ o
    → Effect o.id
        (some (order_row env (changed o status at)))
        os
        (update_rows env (changed o status at) os)
update-Effect env os o status at found row j = ground (
  arith,
  find_order-update env (changed o status at) j os,
  eq_iff o.id j,
  ap (λ r. r.created_at) row,
)
