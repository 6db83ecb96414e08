-- ===== src/System/Boot.antt =====
-- `main` of cmd/main.go up to the start of the servers and the publisher.
use ozon_final.Base.{String, Option, none, some, []}
use ozon_final.Base.Dict.{Dict, lookup}
use ozon_final.Errors.{Result, ok, err}
use ozon_final.World.{Env, World}
use ozon_final.Cache.{load_initial_data}
use ozon_final.Postgres.Users.{init_admin}
use ozon_final.Postgres.Client.{Process, load_env, new_db, get_env}
use ozon_final.Kafka.Publisher.{PublisherConfig}

-- How the start ends: `logger.Fatal` or `log.Fatal` ends the program, or it goes on to serve.
pub data Boot : Type 0 where
  exited started : World → Boot

abbrev pub publisher_config : PublisherConfig
publisher_config = record { batch_size = 10; max_attempts = 5 }

module _ (env : Env) where
  -- The cache is new. An error of `LoadInitialData` is a warning.
  abbrev pub fill_cache : World → World
  fill_cache w = let (_, w') = load_initial_data env (record w { cache = [] }) in w'

  abbrev pub with_admin : Result (Unit {0}) × World → Boot
  with_admin (ok _, w) = started (fill_cache w)
  with_admin (err e, w) = exited w

  -- `InitAdmin` loads the environment file once more.
  abbrev pub admin_of : Option (Dict String) → World → Boot
  admin_of none w = exited w
  admin_of (some vars) w =
      with_admin (init_admin env (get_env "ADMIN_USERNAME" vars) (get_env "ADMIN_PASSWORD" vars) w)

  abbrev pub connected : Process → Dict String → Result (Unit {0}) → World → Boot
  connected p vars (ok _) w = admin_of (load_env (record p { variables = vars })) w
  connected p vars (err e) w = exited w

  abbrev pub loaded : Process → Option (Dict String) → World → Boot
  loaded p none w = exited w
  loaded p (some vars) w = connected p vars (new_db p vars) w

  unfoldable pub boot : Process → World → Boot
  unfolding lookup
  boot p w = loaded p (load_env p) w
