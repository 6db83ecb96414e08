-- ===== src/Cache.antt =====
-- internal/cache/order_cache.go: the orders in memory, by id. Go copies each struct in and out, so
-- the entries are values.
use ozon_final.Base.{String, Bool, ◌||◌, Option, List, [], ◌∷◌, if◌then◌else◌, ◌==◌}
use ozon_final.Base.Dict.{Dict, lookup, insert, remove}
use ozon_final.Errors.{ok}
use ozon_final.Repository.{Order}
use ozon_final.World.{Env, World, Action, ◌>>=◌}
use ozon_final.Postgres.Orders.{get_all_active_orders}

unfoldable pub is_active_status : String → Bool
is_active_status status = status == "received" || status == "issued"

-- `Get`
unfoldable pub get : String → Dict Order → Option Order
get id c = lookup id c

-- `Delete`
unfoldable pub delete : String → Dict Order → Dict Order
delete id c = remove id c

-- `Set`: an order that is not active is deleted instead
unfoldable pub set : Order → Dict Order → Dict Order
set o c = if is_active_status o.status then insert o.id o c else delete o.id c

-- The loop of `LoadInitialData`
unfoldable pub load_all : List Order → Dict Order → Dict Order
load_all [] c = c
load_all (o ∷ os) c = load_all os (insert o.id o c)

-- The three operations on the program's cache.
abbrev pub cache_set : Order → World → World
cache_set o w = record w { cache = set o w.cache }

abbrev pub cache_delete : String → World → World
cache_delete id w = record w { cache = delete id w.cache }

unfoldable pub load_initial_data : Env → Action (Unit {0})
load_initial_data env = do
  orders ← get_all_active_orders env
  λ w. (ok tt, record w { cache = load_all orders w.cache })
