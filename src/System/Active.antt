-- ===== src/System/Active.antt =====
-- What the cache of internal/cache/order_cache.go holds, from the start of `main` on.
use ozon_final.Base.Dict.{Dict}
use ozon_final.Repository
use ozon_final.World.{Env, World}
use ozon_final.Cache
use ozon_final.Postgres
use ozon_final.Storage.Actives.{Actives}
use ozon_final.System.Views.{View}
use ozon_final.System.Boot.{Boot, exited, started}
use ozon_final.System.Steps.{Steps}

module _ (env : Env) where
  abbrev active : View
  active os hs c = Actives c

  -- What the start has reached.
  abbrev Reached : Boot → Type 0
  Reached (exited w) = Unit
  Reached (started w) = Actives w.cache
