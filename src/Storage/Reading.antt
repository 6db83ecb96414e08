-- ===== src/Storage/Reading.antt =====
-- `GetOrder` and `LoadInitialData`: the two readings of an order, from the cache and from its row.
use ozon_final.Base.{
  String, ◌≡◌, refl, sym, ap, ◌∙◌, Option, none, some, List, [], ◌∷◌, All, if◌then◌else◌, eq_iff,
  arith,
}
use mathlib.Core.Path.{subst}
use ozon_final.Base.Sorting.Items.{All-keep, All-sort_by}
use ozon_final.Base.Dict.{Dict, lookup, insert, lookup-insert}
use ozon_final.Errors.{text, wrap, is_not_found, Result, ok, err}
use ozon_final.Repository
use ozon_final.World.{
  Env, World, Answer, served, refused, lost, called, ◌>>=◌, continue, mapped, map_error,
}
use ozon_final.Cache
use ozon_final.Cache.{cache_set, load_all, load_initial_data}
use ozon_final.Postgres
use ozon_final.Postgres.{query, answered}
use ozon_final.Postgres.Orders.{
  find_order, order_row, get_by_id, or_not_found, active_rows, get_all_active_orders,
}
use ozon_final.Postgres.Orders.Lookup.{id-find_order, find_order-All}
use ozon_final.Storage.{Order, to_row, of_row}
use ozon_final.Storage.Orders.{get_order, cached_order}
use ozon_final.Storage.Coherence.{IsStable, InSync, InSync-row, set-Known}

module _ (env : Env) (stable : IsStable env) (id : String) (w : World)
    (h : InSync env w.db.orders w.cache) where
  -- What holds after the read.
  abbrev Right : Result Order × World → Type 0
  Right (ok o, w') =
      (find_order id w.db.orders ≡ some (order_row env (to_row o)))
      × InSync env w'.db.orders w'.cache
  Right (err e, w') = InSync env w'.db.orders w'.cache

  from_rows :
      (a : Answer) (found : Option Repository.Order)
      → find_order id w.db.orders ≡ found
      → Right (
          (do
            o ←
                map_error
                  (λ e.
                    if is_not_found e
                    then text "order not found"
                    else wrap "failed to get order from DB" e)
                  (do row ← λ w. Postgres.answered a (ok found) (called w); or_not_found env row)
            λ w. (ok (of_row o), cache_set o w))
            w)
  unfolding ◌>>=◌ map_error
  from_rows served (some o) e =
      let row : order_row env o ≡ o = h.stored id o e in
      let this : o.id ≡ id = id-find_order id w.db.orders e in
      (
        e ∙ ap some (sym row),
        set-Known env stable w.db.orders w.db.orders w.cache h o
            (λ j. ground (arith, row, this, e, eq_iff o.id j)),
      )
  from_rows served none e = h
  from_rows (refused m) found e = h
  from_rows (lost m) found e = h

  from_cache :
      (c : Option Repository.Order) → lookup id w.cache ≡ c → Right (cached_order env id c w)
  unfolding get_by_id query ◌>>=◌ map_error
  from_cache (some o) e = ((InSync-row env w.db.orders w.cache h id o e).1, h)
  from_cache none e = from_rows (env.answer w.calls) (find_order id w.db.orders) refl

  get_order-Right : Right (get_order env id w)
  unfolding get_order Cache.get
  get_order-Right = from_cache (lookup id w.cache) refl

  Right-sync : (r : Result Order × World) → Right r → InSync env r.1.db.orders r.1.cache
  Right-sync (ok x, w') k = k.1
  Right-sync (err x, w') k = k

  -- If a column keeps what it has kept of a time, and the cache agrees with the committed rows, it does
  -- so after `GetOrder`, whatever that returns.
  pub get_order-InSync : InSync env (get_order env id w).1.db.orders (get_order env id w).1.cache
  get_order-InSync = Right-sync (get_order env id w) get_order-Right

-- The rows have distinct keys, and are what the columns keep of them.
abbrev pub Keyed : Env → List Repository.Order → Type 0
Keyed env os = All (λ o. (find_order o.id os ≡ some o) × (order_row env o ≡ o)) os

module _ (env : Env) (os : List Repository.Order) (keyed : Keyed env os) where
  load_all-InSync :
      (rows : List Repository.Order) (c : Dict Repository.Order)
      → All (λ o. (find_order o.id os ≡ some o) × (order_row env o ≡ o)) rows
      → InSync env os c
      → InSync env os (load_all rows c)
  unfolding load_all
  load_all-InSync [] c h s = s
  load_all-InSync (o ∷ rows) c h s = load_all-InSync rows (insert o.id o c) h.1 (record {
    stored = s.stored;
    coherent =
        λ j x e. ground (arith, lookup-insert o.id j o c, eq_iff o.id j, h.0, s.coherent j x);
  })

  empty-InSync : InSync env os []
  unfolding lookup
  empty-InSync = record {
    stored = λ id o e.
        (find_order-All (λ o. (find_order o.id os ≡ some o) × (order_row env o ≡ o)) id os keyed
          e).1;
    coherent = λ j x e. cc;
  }

  active_rows-All :
      All (λ o. (find_order o.id os ≡ some o) × (order_row env o ≡ o)) (active_rows env os)
  unfolding active_rows
  active_rows-All = All-sort_by _ _ _ (All-keep _ _ os keyed)

  loaded-InSync :
      (a : Answer) (w : World)
      → w.cache ≡ []
      → InSync env os
          (continue
            (mapped
              (wrap "failed to get all active orders")
              (answered a (ok (active_rows env os)) w).0)
            (λ rows w. (ok (tt {0}), record w { cache = load_all rows w.cache }))
            (answered a (ok (active_rows env os)) w).1).1.cache
  loaded-InSync served w empty =
      load_all-InSync (active_rows env os) w.cache active_rows-All
        (subst (InSync env os) (sym empty) empty-InSync)
  loaded-InSync (refused m) w empty = subst (InSync env os) (sym empty) empty-InSync
  loaded-InSync (lost m) w empty = subst (InSync env os) (sym empty) empty-InSync

-- Reading writes nothing.
pub db-get_order : (env : Env) (id : String) (w : World) → (get_order env id w).1.db ≡ w.db
unfolding get_order get_by_id query ◌>>=◌ map_error
db-get_order env id w = ground arith

pub db-load_initial_data : (env : Env) (w : World) → (load_initial_data env w).1.db ≡ w.db
unfolding load_initial_data get_all_active_orders query ◌>>=◌ map_error
db-load_initial_data env w = ground arith

-- If the rows have distinct keys and are what their columns keep of them, and the cache is empty, then
-- `LoadInitialData` leaves a cache that agrees with the committed rows, whatever the database answers.
pub load_initial_data-InSync :
    (env : Env) (w : World)
    → Keyed env w.db.orders
    → w.cache ≡ []
    → InSync env (load_initial_data env w).1.db.orders (load_initial_data env w).1.cache
unfolding load_initial_data get_all_active_orders query ◌>>=◌ map_error
load_initial_data-InSync env w keyed empty =
    subst (λ t. InSync env t.orders (load_initial_data env w).1.cache)
      (sym (db-load_initial_data env w))
      (loaded-InSync env w.db.orders keyed (env.answer w.calls) (called w) empty)
