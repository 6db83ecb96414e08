-- ===== src/Tests/Running.antt =====
-- The program from its start to its end.
use ozon_final.Base.{◌≡◌, refl, true, none, some, List, [], ◌∷◌}
use ozon_final.Base.Dict.{lookup}
use ozon_final.Errors.{ok}
use ozon_final.World.{Env, World, called, ◌>>=◌, map_error}
use ozon_final.World
use ozon_final.Postgres
use ozon_final.Postgres.Users
use ozon_final.Postgres.Client.{Process, load_env, new_db, load_first}
use ozon_final.Postgres.Client.Files.{Chosen, env_files, load_env-Chosen}
use ozon_final.Kafka.Lifecycle.{
  Lifecycle, new, start, find_done, timed_out, cancel, servers_return, join, step, steps, finished,
}
use ozon_final.Kafka.Lifecycle
use ozon_final.Kafka.Lifecycle.Ending.{finished-time_outs}
use ozon_final.Rest.Routes.{Request}
use ozon_final.Rest.Routes
use ozon_final.Storage.Calls.{perform}
use ozon_final.Storage.Calls
use ozon_final.Storage.Contract.{Refines, perform-Refines}
use ozon_final.System.Boot.{boot, fill_cache}
use ozon_final.System.Steps.{Program, at_rest, http, here, then}
use ozon_final.System.Agreement.{Alike, delete, by_rpc, http_request, serve_http-Alike}
use ozon_final.Storage.Actives.{Actives}
use ozon_final.System.Safe.{Coherent, boot-Coherent}
use ozon_final.Tests.{calm, two, tables}
use ozon_final.Tests.Methods.{calm-IsServing, calm-IsHonest, calm-IsStable, tables-Tracked}
use ozon_final.Tests.Reading.{two-Keyed}

-- A process in /app, where an environment file stands in the parent directory only.
abbrev process : Process
process = record {
  directory = some ("app" ∷ []);
  variables = [];
  load = λ file vars. elim file [
    | [] ↦ none
    | name ∷ dir ↦ elim dir [ [] ↦ some (("ADMIN_USERNAME", "admin") ∷ vars) | _ ↦ none ]
  ];
  port_text = λ s. "0";
  connect = λ dsn. ok tt;
}

load_env-Chosen_example :
    Chosen process.load [] (env_files ("app" ∷ [])) (some (("ADMIN_USERNAME", "admin") ∷ []))
unfolding load_env load_first
load_env-Chosen_example = load_env-Chosen process {dir = "app" ∷ []} refl

perform-Refines_example :
    Refines
      (calm.clock two.readings)
      (Calls.issue_orders "u" ("a" ∷ "b" ∷ []))
      (perform calm (Calls.issue_orders "u" ("a" ∷ "b" ∷ [])) two).0
      tables.orders
      (perform calm (Calls.issue_orders "u" ("a" ∷ "b" ∷ [])) two).1.db.orders
perform-Refines_example =
    perform-Refines calm calm-IsServing (Calls.issue_orders "u" ("a" ∷ "b" ∷ [])) two

abbrev whole_life : List Lifecycle.Event
whole_life = start ∷ cancel ∷ find_done ∷ timed_out ∷ servers_return ∷ join ∷ []

abbrev ended : Lifecycle
ended = record new {
  run = Lifecycle.returned;
  main = finished;
  signalled = true;
  cancelled = true;
  servers_returned = true;
  stopped = true;
  time_outs = 1;
  producer_closes = 1;
}

finished-time_outs_example :
    (ended.cancelled ≡ true) × (ended.time_outs ≡ 1) × (ended.producer_closes ≡ 1)
unfolding steps step
finished-time_outs_example = finished-time_outs whole_life {s = ended} refl refl

abbrev request : Request
request = record {
  method = "DELETE";
  path = "orders" ∷ "a" ∷ [];
  credentials = some ("admin", "secret");
  parameter = λ name. "";
  create_body = none;
  status_body = none;
  return_body = none;
  bulk_body = none;
}

-- The state in which the servers start, and after one request.
abbrev begun : World
begun = fill_cache calm (record two { calls = 1 })

abbrev after_request : Program
after_request = at_rest (Routes.serve_http calm request begun).1

boot-Coherent_example : Coherent calm after_request.world
unfolding boot load_env load_first new_db Users.init_admin Users.find_password lookup World.◌>>=◌
    Postgres.query
boot-Coherent_example =
    boot-Coherent calm calm-IsHonest calm-IsStable process two {w' = begun} {s = after_request}
      two-Keyed tables-Tracked refl (then here (http request))

serve_http-Alike_example :
    Alike
      (Routes.serve_http calm (http_request calm (delete "a") "admin" "secret") two).1
      (by_rpc calm (delete "a") (called two))
unfolding Users.find_password
serve_http-Alike_example =
    serve_http-Alike calm "admin" "secret" (delete "a") two {hash = "secret"} refl refl
