-- ===== src/Storage/Races.antt =====
-- Requests side by side: what the lock of internal/cache/order_cache.go and the row locks of the database
-- leave atomic are a transaction, a reading of the cache, a reading of a row, and the updates of the cache
-- that follow a commit or a reading. Other goroutines can come between them.
pub mod Seen
pub mod Past
use ozon_final.Base.{
  String, ◌≡◌, refl, sym, ap, ◌∙◌, ◌⊎◌, inl, inr, Bool, true, false, Option, none, some, List, [],
  ◌∷◌, ◌++◌, All, All-map, All-remove_at, if◌then◌else◌, ◌==◌, eq_iff, arith,
}
use mathlib.Core.Path.{subst}
use ozon_final.Base.Dict.{Dict, lookup, lookup-insert, lookup-remove}
use ozon_final.Errors.{Result, ok, err}
use ozon_final.Repository
use ozon_final.World.{Env, Tables, World, ◌>>=◌, map_error}
use ozon_final.Cache
use ozon_final.Postgres.{query}
use ozon_final.Postgres.Orders.{find_order, order_row, get_by_id}
use ozon_final.Postgres.Orders.Lookup.{id-find_order}
use ozon_final.Storage.{Order, to_row, of_row}
use ozon_final.Storage.Orders.{get_order, cached_order}
use ozon_final.Storage.Calls.{Method, perform}
use ozon_final.Storage.Updates.Applied.{perform-updates}
use ozon_final.Storage.Committed.{IsHonest}
use ozon_final.Storage.Coherence.{IsStable, Known, InSync, InSync-row}
use ozon_final.Storage.Reading.{db-get_order}
use ozon_final.Storage.Sync.{perform-Known}
use ozon_final.Storage.Updates.{Update, put, drop, update, apply, updates}

-- `pending` has the updates of the cache that each goroutine has still to make.
pub record Shared : Type 0 where
  pub world : World
  pub pending : List (List Update)

abbrev pub quiet : World → Shared
quiet w = record { world = w; pending = [] }

-- `s.orderCache.Set(repoOrder)`, after a reading of the row
abbrev pub read_updates : Result Order → List Update
read_updates (ok o) = put (to_row o) ∷ []
read_updates (err e) = []

module _ (env : Env) where
  pub data Step (s : Shared) : Shared → Type 0 where
    -- a method up to the end of its transaction
    write :
        (m : Method)
        → Step s (record {
          world = record (perform env m s.world).1 { cache = s.world.cache };
          pending = updates env m s.world ∷ s.pending;
        })
    -- `GetOrder` up to its reading of the row; where it finds the order in the cache, nothing changes
    miss :
        (id : String)
        → Cache.get id s.world.cache ≡ none
        → Step s (record {
          world = record (get_order env id s.world).1 { cache = s.world.cache };
          pending = read_updates (get_order env id s.world).0 ∷ s.pending;
        })
    -- a goroutine makes its updates
    finish :
        (before after : List (List Update)) (us : List Update)
        → s.pending ≡ before ++ us ∷ after
        → Step s (record {
          world = record s.world { cache = apply us s.world.cache };
          pending = before ++ after;
        })

  pub data Steps (s : Shared) : Shared → Type 0 where
    here : Steps s s
    next : {t u : Shared} → Steps s t → Step t u → Steps s u

  -- The order has the row of the id.
  abbrev pub IsRow : List Repository.Order → String → Repository.Order → Type 0
  IsRow os id o = (o.id ≡ id) × (find_order id os ≡ some (order_row env o))

  -- It had the row at some time of the run.
  unfoldable pub Was : {s t : Shared} → Steps s t → String → Repository.Order → Type 0
  Was {s} here id o = IsRow s.world.db.orders id o
  Was (next {u} r st) id o = Was r id o ⊎ IsRow u.world.db.orders id o
