-- ===== src/Storage/Races/Past.antt =====
-- An order that is read while other requests run has been its row at some time.
use ozon_final.Base.{String, ◌≡◌, refl, ap, inr, Option, none, some}
use mathlib.Core.Path.{subst}
use ozon_final.Base.Dict.{lookup}
use ozon_final.Errors.{ok}
use ozon_final.Repository
use ozon_final.World.{Env, World}
use ozon_final.Cache
use ozon_final.Storage.{Order, to_row, of_row}
use ozon_final.Storage.Orders.{get_order, cached_order}
use ozon_final.Storage.Committed.{IsHonest}
use ozon_final.Storage.Coherence.{IsStable, InSync}
use ozon_final.Storage.Races.{Shared, quiet, Steps, here, next, IsRow, Was}
use ozon_final.Storage.Races.Seen.{miss-IsRow, run-Seen}

module _ (env : Env) (honest : IsHonest env) (stable : IsStable env) (w : World) {t : Shared}
    (r : Steps env (quiet w) t) (h : InSync env w.db.orders w.cache) (id : String) where
  now-Was :
      {s u : Shared} (r : Steps env s u) {o : Repository.Order}
      → IsRow env u.world.db.orders id o
      → Was env r id o
  unfolding Was
  now-Was here k = k
  now-Was (next r st) k = inr k

  of_cache :
      (c : Option Repository.Order) {o : Order}
      → lookup id t.world.cache ≡ c
      → (cached_order env id c t.world).0 ≡ ok o
      → (get_order env id t.world).0 ≡ ok o
      → Was env r id (to_row o)
  unfolding Cache.get
  of_cache (some x) {o = o} e q got =
      let same : of_row x ≡ o = cc in
      subst (Was env r id) (ap to_row same) ((run-Seen env honest stable w r h).cached id x e)
  of_cache none e q got =
      now-Was r (miss-IsRow env id t.world ((run-Seen env honest stable w r h).stored id) e got)

-- Suppose that the database never loses the reply of a call that took effect, that a column keeps what
-- it has kept of a time, and that the cache agrees with the committed rows at the start. However calls
-- of the storage and readings of orders come between each other after that, with their updates of the
-- cache as late as it may be, an order that `GetOrder` returns has been the committed row of its id at
-- some time of the run, up to what the columns keep of its times.
pub get_order-Was :
    (env : Env)
    → IsHonest env
    → IsStable env
    → (w : World) {t : Shared} (r : Steps env (quiet w) t) → InSync env w.db.orders w.cache
    → (id : String) {o : Order} → (get_order env id t.world).0 ≡ ok o
    → Was env r id (to_row o)
unfolding get_order Cache.get
get_order-Was env honest stable w {t} r h id e =
    of_cache env honest stable w r h id (lookup id t.world.cache) refl e e
