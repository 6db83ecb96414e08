-- ===== src/System/Steps.antt =====
-- The two servers and the publisher at work, as cmd/main.go starts them: requests come between any two
-- tasks that the publisher sends. A request runs as a whole, and so does the transaction of a batch.
use ozon_final.Base.{ℕ, zero, suc, ◌+◌, ◌≡◌, ◌≢◌, refl, List, [], ◌∷◌}
use ozon_final.Errors.{Result, ok, err, text}
use ozon_final.Repository.{OutboxTask}
use ozon_final.World.{Env, World, Signal, quiet, shutdown, cancelled, continue, ◌>>=◌}
use ozon_final.Kafka.Publisher.{
  PublisherConfig, process_single_task, claim, send_tasks, process_batch, run, context_canceled,
}
use ozon_final.Rest.Routes
use ozon_final.Rest.Routes.{serve_http}
use ozon_final.Grpc.Methods
use ozon_final.Grpc.Methods.{serve_rpc}
use ozon_final.System.Views.{View, Of, IsKept}
use ozon_final.System.Http.{serve_http-Of}
use ozon_final.System.Rpc.{serve_rpc-Of}
use ozon_final.System.Publisher.{process_single_task-Of, claim-Of}

-- `batch` is what `processBatch` has marked and not yet come to.
pub record Program : Type 0 where
  pub world : World
  pub batch : List OutboxTask

abbrev pub at_rest : World → Program
at_rest w = record { world = w; batch = [] }

-- A `select` of the publisher has been decided.
abbrev pub selected : World → World
selected w = record w { selects = w.selects + 1 }

abbrev pub tasks_of : Result (List OutboxTask) → List OutboxTask
tasks_of (ok ts) = ts
tasks_of (err e) = []

module _ (env : Env) (config : PublisherConfig) where
  pub data Step (s : Program) : Program → Type 0 where
    http : (r : Routes.Request) → Step s (record s { world = (serve_http env r s.world).1 })
    rpc : (r : Methods.Request) → Step s (record s { world = serve_rpc env r s.world })
    -- a tick of the timer
    tick :
        s.batch ≡ []
        → env.signal s.world.selects ≡ quiet
        → Step s (record s { world = selected s.world })
    claim_batch :
        s.batch ≡ []
        → Step s (record {
          world = (claim env config.batch_size s.world).1;
          batch = tasks_of (claim env config.batch_size s.world).0;
        })
    send :
        {t : OutboxTask} {ts : List OutboxTask}
        → s.batch ≡ t ∷ ts
        → env.signal s.world.selects ≡ quiet
        → Step s (record { world = (process_single_task env t (selected s.world)).1; batch = ts })
    -- the shutdown or the end of the context
    stop :
        env.signal s.world.selects ≢ quiet
        → Step s (record { world = selected s.world; batch = [] })

  pub data Steps (s : Program) : Program → Type 0 where
    here : Steps s s
    then : {t u : Program} → Steps s t → Step t u → Steps s u

  append : {s t u : Program} → Steps s t → Steps t u → Steps s u
  append a here = a
  append a (then b st) = then (append a b) st

  module _ (J : View) (k : IsKept env J) where
    Step-Of : {s t : Program} → Step s t → Of J s.world → Of J t.world
    Step-Of {s} (http r) h = serve_http-Of env J k r s.world h
    Step-Of {s} (rpc r) h = serve_rpc-Of env J k r s.world h
    Step-Of (tick rest e) h = h
    Step-Of {s} (claim_batch rest) h = claim-Of env J config.batch_size s.world h
    Step-Of {s} (send {t} e q) h = process_single_task-Of env J t (selected s.world) h
    Step-Of (stop ne) h = h

    -- Whatever of the orders, their history and the cache the storage keeps, the program keeps.
    pub Steps-Of : {s t : Program} → Steps s t → Of J s.world → Of J t.world
    Steps-Of here h = h
    Steps-Of (then r st) h = Step-Of st (Steps-Of r h)

  -- One more step in front.
  before : {s t u : Program} → Step s t → Steps t u → Steps s u
  before st r = append (then here st) r

  -- The second loop of `processBatch`, task by task.
  send_tasks-Steps :
      (ts : List OutboxTask) (w : World)
      → Steps (record { world = w; batch = ts }) (at_rest (send_tasks env ts w).1)
  unfolding send_tasks
  send_tasks-Steps [] w = here
  send_tasks-Steps (t ∷ ts) w =
      by_signal (env.signal w.selects) refl
        (send_tasks-Steps ts (process_single_task env t (selected w)).1)
    where
      by_signal :
          (s : Signal)
          → env.signal w.selects ≡ s
          → Steps
              (record { world = (process_single_task env t (selected w)).1; batch = ts })
              (at_rest (send_tasks env ts (process_single_task env t (selected w)).1).1)
          → Steps
              (record { world = w; batch = t ∷ ts })
              (at_rest
                (elim s as (λ _. Result (Unit {0}) × World) [
                  | quiet ↦ send_tasks env ts (process_single_task env t (selected w)).1
                  | shutdown ↦ (err (text "publisher shutdown during batch processing"), selected w)
                  | cancelled ↦ (err context_canceled, selected w)
                ]).1)
      by_signal quiet e rest = before (send refl e) rest
      by_signal shutdown e rest = then here (stop (λ q. cc))
      by_signal cancelled e rest = then here (stop (λ q. cc))

  process_batch-Steps : (w : World) → Steps (at_rest w) (at_rest (process_batch env config w).1)
  unfolding process_batch ◌>>=◌
  process_batch-Steps w = before (claim_batch refl) (by_result (claim env config.batch_size w))
    where
      by_result :
          (r : Result (List OutboxTask) × World)
          → Steps
              (record { world = r.1; batch = tasks_of r.0 })
              (at_rest (continue r.0 (send_tasks env) r.1).1)
      by_result (ok ts, w') = send_tasks-Steps ts w'
      by_result (err e, w') = here

  -- Any number of rounds of `Run` is a sequence of these steps: the publisher alone is one of the ways in
  -- which the program can go on.
  pub run-Steps : (n : ℕ) (w : World) → Steps (at_rest w) (at_rest (run env config n w))
  unfolding run
  run-Steps zero w = here
  run-Steps (suc n) w =
      by_signal (env.signal w.selects) refl (run-Steps n (process_batch env config (selected w)).1)
    where
      by_signal :
          (s : Signal)
          → env.signal w.selects ≡ s
          → Steps
              (at_rest (process_batch env config (selected w)).1)
              (at_rest (run env config n (process_batch env config (selected w)).1))
          → Steps (at_rest w) (
              at_rest (elim s as (λ _. World) [
                | quiet ↦ run env config n (process_batch env config (selected w)).1
                | shutdown ↦ selected w
                | cancelled ↦ selected w
              ]))
      by_signal quiet e rest = before (tick refl e) (append (process_batch-Steps (selected w)) rest)
      by_signal shutdown e rest = then here (stop (λ q. cc))
      by_signal cancelled e rest = then here (stop (λ q. cc))
