-- ===== src/Storage/Coherence/Batches.antt =====
-- The bulk methods: what is known of the rows while the loop runs, and the cache after the commit.
use ozon_final.Base.{
  ℕ, String, ◌≡◌, refl, ◌⊎◌, none, some, List, [], ◌∷◌, All, All-map, eq_iff, arith,
}
use ozon_final.Base.Dict.{Dict, lookup, remove, insert, All-remove, lookup-insert, lookup-remove}
use ozon_final.Repository.{Order}
use ozon_final.World.{Env, World}
use ozon_final.Cache
use ozon_final.Postgres.Orders.{find_order, order_row, update_rows}
use ozon_final.Storage.Orders.{changed}
use ozon_final.Storage.Bulk.{cache_set_all, cache_delete_all}
use ozon_final.Storage.Coherence.{IsStable, Known, Effect, order_row_idem, update-Effect}

module _ (env : Env) where
  -- An entry of the map that is kept for the cache is the order that the rows hold.
  abbrev IsRow : List Order → String × Order → Type 0
  IsRow os (k, o) = (o.id ≡ k) × (find_order k os ≡ some (order_row env o))

  -- The rows in the middle of `IssueOrders`, which began with the rows `os₀`.
  pub record Issuing (os₀ : List Order) (d : Dict Order) (os : List Order) : Type 0 where
    pub stored : (id : String) (o : Order) → find_order id os ≡ some o → order_row env o ≡ o
    pub entries : All (IsRow os) d
    pub others : (j : String) → lookup j d ≡ none → find_order j os ≡ find_order j os₀

  -- The same of `AcceptReturns`.
  pub record Accepting (os₀ : List Order) (d : Dict (Unit {0})) (os : List Order) : Type 0 where
    pub stored : (id : String) (o : Order) → find_order id os ≡ some o → order_row env o ≡ o
    pub others : (j : String) → lookup j d ≡ none → find_order j os ≡ find_order j os₀

  module _ (stable : IsStable env) (os₀ os : List Order) (o : Order) (status : String) (at : ℕ)
      (found : find_order o.id os ≡ some o) (row : order_row env o ≡ o) where
    effect :
        Effect o.id
          (some (order_row env (changed o status at)))
          os
          (update_rows env (changed o status at) os)
    effect = update-Effect env os o status at found row

    new_stored :
        ((id : String) (x : Order) → find_order id os ≡ some x → order_row env x ≡ x)
        → (id : String) (x : Order)
        → find_order id (update_rows env (changed o status at) os) ≡ some x
        → order_row env x ≡ x
    new_stored old id x e =
        ground (arith, effect id, old id x, order_row_idem env stable (changed o status at))

    pub issue-Issuing :
        (d : Dict Order)
        → Issuing os₀ d os
        → Issuing os₀
            (insert o.id (changed o status at) d)
            (update_rows env (changed o status at) os)
    unfolding insert
    issue-Issuing d h = record {
      stored = new_stored h.stored;
      entries = (
        (refl, ground (arith, effect o.id, eq_iff o.id o.id)),
        All-map _ _ (remove o.id d) (λ e k. (k.0.0, ground (arith, effect e.0, eq_iff o.id e.0, k)))
            (All-remove (IsRow os) o.id d h.entries),
      );
      others =
          λ j e. ground (arith, effect j, lookup-insert o.id j (changed o status at) d, h.others j);
    }

    pub accept-Accepting :
        (d : Dict (Unit {0}))
        → Accepting os₀ d os
        → Accepting os₀ (insert o.id tt d) (update_rows env (changed o status at) os)
    accept-Accepting d h = record {
      stored = new_stored h.stored;
      others = λ j e. ground (arith, effect j, lookup-insert o.id j tt d, h.others j);
    }

  -- The cache is known on every id that the map does not name.
  abbrev pub AgreesBut :
      (String → Order → Type 0) → {V : Type 0} → Dict V → List Order → Dict Order → Type 0
  AgreesBut P d os c =
      (j : String) (x : Order)
      → lookup j d ≡ none
      → lookup j c ≡ some x
      → ((x.id ≡ j) × (find_order j os ≡ some (order_row env x))) ⊎ P j x

  module _ {P : String → Order → Type 0} (os : List Order)
      (stored : (id : String) (o : Order) → find_order id os ≡ some o → order_row env o ≡ o) where
    set_agrees :
        (k : String) (o : Order) (d c : Dict Order)
        → IsRow os (k, o)
        → AgreesBut P ((k, o) ∷ d) os c
        → AgreesBut P d os (Cache.set o c)
    unfolding lookup Cache.set Cache.delete
    set_agrees k o d c row ag j x out e = ground (
      arith,
      lookup-insert o.id j o c,
      lookup-remove o.id j c,
      eq_iff k j,
      eq_iff o.id j,
      ag j x,
      row,
    )

    pub cache_set_all-Known :
        (d : Dict Order) (w : World)
        → All (IsRow os) d
        → AgreesBut P d os w.cache
        → Known env P os (cache_set_all env d w).cache
    unfolding lookup
    cache_set_all-Known [] w es ag = record { stored = stored; coherent = λ j x e. ag j x refl e }
    cache_set_all-Known ((k, o) ∷ d) w es ag =
        cache_set_all-Known d (record w { cache = Cache.set o w.cache }) es.1
          λ j x out e. set_agrees k o d w.cache es.0 ag j x out e

    pub cache_delete_all-Known :
        (d : Dict (Unit {0})) (w : World)
        → AgreesBut P d os w.cache
        → Known env P os (cache_delete_all env d w).cache
    unfolding lookup Cache.delete
    cache_delete_all-Known [] w ag = record { stored = stored; coherent = λ j x e. ag j x refl e }
    cache_delete_all-Known ((k, u) ∷ d) w ag =
        cache_delete_all-Known d (record w { cache = Cache.delete k w.cache })
          λ j x out e. ground (arith, lookup-remove k j w.cache, eq_iff k j, ag j x)
