-- ===== src/Storage/Invariants.antt =====
-- The history invariant over sequences of storage calls.
use ozon_final.Base.{ℕ, String, ◌≡◌, refl, sym, List, [], ◌∷◌, arith}
use mathlib.Core.Path.{subst}
use ozon_final.Base.Dict.{Dict}
use ozon_final.Repository
use ozon_final.Repository.{OutboxTask}
use ozon_final.World.{Env, Tables, World, Action, ◌>>=◌, pure}
use ozon_final.Postgres.Ensures.{Ensures}
use ozon_final.Postgres.Outbox.{create_task_tx}
use ozon_final.Storage.Orders
use ozon_final.Storage.Bulk
use ozon_final.Storage.Bulk.{
  Attempt, Outcome, passed, skipped, broken, cache_set_all, cache_delete_all,
}
use ozon_final.Storage.Bulk.Ensures.{AttemptEnsures, OutcomePost, StepKeeps}
use ozon_final.Storage.Calls.{
  Method, add_order, update_order_status, delete_order, add_return, issue_orders, accept_returns,
  perform, perform_all,
}
use ozon_final.Storage.Durable.{in_transaction-db, bulk-db}
use ozon_final.Storage.Frozen.{
  Frozen-add_order_body, Frozen-update_status_body, Frozen-delete_order_body,
  Frozen-add_return_body, Frozen-issue_one, Frozen-accept_one,
}
use ozon_final.Storage.Tracked.{Tracked}
use ozon_final.Storage.History.{Ignores-Tracked, create_task_tx-keeps}
use ozon_final.Storage.History.Bodies.{
  add_order_body-Tracked, update_status_body-Tracked, delete_order_body-Tracked,
  add_return_body-Tracked,
}
use ozon_final.Storage.History.Batches.{issue_one-Tracked, accept_one-Tracked}

pub db-cache_set_all :
    (env : Env) (os : Dict Repository.Order) (w : World) → (cache_set_all env os w).db ≡ w.db
db-cache_set_all env [] w = refl
db-cache_set_all env ((id, o) ∷ os) w = db-cache_set_all env os _

pub db-cache_delete_all :
    (env : Env) (ids : Dict (Unit {0})) (w : World) → (cache_delete_all env ids w).db ≡ w.db
db-cache_delete_all env [] w = refl
db-cache_delete_all env ((id, _) ∷ ids) w = db-cache_delete_all env ids _

-- Dropping the value of an action keeps its state.
pub state-forget :
    {A : Type 0} (m : Action A) (w : World) → ((m >>= λ _. pure (tt {0})) w).1 ≡ (m w).1
unfolding ◌>>=◌
state-forget m w = ground arith

-- A step that keeps a predicate of the tables, whether it passes or is skipped.
pub step_of :
    {V : Type 0} (P : Tables → Type 0) (one : ℕ → String → Attempt (V × OutboxTask))
    → ((at : ℕ) (id : String) → AttemptEnsures P (one at id) (λ _. P) P)
    → (at : ℕ) → StepKeeps {V = V} (λ _. P) (one at)
step_of {V} P one k at id b = record { at = λ w h. skip_any (one at id w) ((k at id).at w h) }
  where
    skip_any :
        (r : Outcome (V × OutboxTask) × World)
        → OutcomePost (λ _. P) P r
        → OutcomePost (λ _. P) (λ t. (reason : String) → P t) r
    skip_any (passed p, w) h = h
    skip_any (skipped r, w) h = λ _. h
    skip_any (broken r e, w) h = tt

task-Tracked : (env : Env) (t : OutboxTask) → Ensures Tracked (create_task_tx env t) (λ _. Tracked)
task-Tracked env t = create_task_tx-keeps env Tracked Ignores-Tracked t

pub perform-Tracked :
    (env : Env) (m : Method) (w : World) → Tracked w.db → Tracked (perform env m w).1.db
unfolding perform Orders.add_order Orders.update_order_status Orders.delete_order Orders.add_return
    Bulk.issue_orders Bulk.accept_returns
perform-Tracked env (add_order o) w h =
    in_transaction-db Tracked env _ (λ a w. refl) _ _ w h (Frozen-add_order_body env o)
      (add_order_body-Tracked env o)
perform-Tracked env (update_order_status id status) w h =
    subst (λ w'. Tracked w'.db) (sym (state-forget _ w))
      (in_transaction-db Tracked env _ (λ a w. refl) _ _ w h
        (Frozen-update_status_body env id status) (update_status_body-Tracked env id status))
perform-Tracked env (delete_order id) w h =
    in_transaction-db Tracked env _ (λ a w. refl) _ _ w h (Frozen-delete_order_body env id)
      (delete_order_body-Tracked env id)
perform-Tracked env (add_return ret) w h =
    in_transaction-db Tracked env _ (λ a w. refl) _ _ w h (Frozen-add_return_body env ret)
      (add_return_body-Tracked env ret)
perform-Tracked env (issue_orders user ids) w h =
    bulk-db Tracked env _ (db-cache_set_all env) _ _ _ ids w h (Frozen-issue_one env user)
      (step_of Tracked _ (issue_one-Tracked env user)) (task-Tracked env)
perform-Tracked env (accept_returns user ids) w h =
    bulk-db Tracked env _ (db-cache_delete_all env) _ _ _ ids w h (Frozen-accept_one env user)
      (step_of Tracked _ (accept_one-Tracked env user)) (task-Tracked env)

-- If the status of every order is the last status in its history, that holds again after any sequence
-- of storage calls, whatever they return and whatever the database answers to each statement.
pub perform_all-Tracked :
    (env : Env) (ms : List Method) (w : World) → Tracked w.db → Tracked (perform_all env ms w).db
unfolding perform_all
perform_all-Tracked env [] w h = h
perform_all-Tracked env (m ∷ ms) w h =
    perform_all-Tracked env ms (perform env m w).1 (perform-Tracked env m w h)
