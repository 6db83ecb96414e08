-- ===== src/Storage/Bulk.antt =====
-- `IssueOrders` and `AcceptReturns` of internal/storage/filestorage.go: one transaction over a list
-- of orders, with a result for each.
pub mod Keeps
pub mod Ensures
pub mod Results
pub mod Sound
pub mod Rule
pub mod Labels
pub mod Tasks
pub mod Audited
pub mod Exact
use Prim.Native.String.{◌++◌ as ◌++ₛ◌}
use ozon_final.Base.{
  ℕ, ◌+◌, ◌-◌, String, Bool, true, false, not, Option, none, some, List, [], ◌∷◌, ◌++◌, map, ltb,
  if◌then◌else◌, ◌==◌,
}
use ozon_final.Base.Dict.{Dict, insert}
use ozon_final.Errors.{Error, text, wrap, Result, ok, err, is_not_found}
use ozon_final.Repository
use ozon_final.Repository.{OutboxTask, new_return, new_history, new_task}
use ozon_final.World.{Env, World, Action, pure, now}
use ozon_final.World
use ozon_final.Cache.{cache_set, cache_delete}
use ozon_final.Postgres.{begin_tx, commit, rollback}
use ozon_final.Postgres.Orders.{get_by_id_tx, update_tx}
use ozon_final.Postgres.Returns.{create_return_tx, create_history_tx}
use ozon_final.Postgres.Outbox.{create_task_tx}
use ozon_final.Storage.{create_audit_payload}
use ozon_final.Storage.Orders.{return_period, changed, begin_wrapped}

-- `IssueOrdersResult` and `AcceptReturnsResult` have the same fields.
pub record BulkResult : Type 0 where
  pub order_id : String
  pub success : Bool
  pub error : String

-- How `processOrder` and `processReturn` end: with success, with a nil error and a reason in
-- `result.Error`, or with a reason and an error.
pub data Outcome (A : Type 0) : Type 0 where
  passed : A → Outcome A
  skipped : String → Outcome A
  broken : String → Error → Outcome A

abbrev pub Attempt : Type 0 → Type 0
Attempt A = World → Outcome A × World

module _ {A B : Type 0} where
  abbrev pub carry_on : Outcome A → (A → Attempt B) → Attempt B
  carry_on (passed a) f w = f a w
  carry_on (skipped r) f w = (skipped r, w)
  carry_on (broken r e) f w = (broken r e, w)

  infixl 5 ◌>>=◌ ◌>>◌
  unfoldable pub ◌>>=◌ : Attempt A → (A → Attempt B) → Attempt B
  ◌>>=◌ m f w = let (r, w') = m w in carry_on r f w'

  abbrev pub ◌>>◌ : Attempt A → Attempt B → Attempt B
  m >> k = m >>= λ _. k

module _ {A : Type 0} where
  abbrev pub finish : A → Attempt A
  finish a w = (passed a, w)

  abbrev pub skip : String → Attempt A
  skip reason w = (skipped reason, w)

  abbrev pub attempted : String → String → Result A → Outcome A
  attempted reason pre (ok a) = passed a
  attempted reason pre (err e) = broken reason (wrap pre e)

  -- `if err != nil { result.Error = reason; return fmt.Errorf("pre: %w", err) }`
  unfoldable pub attempt : String → String → Action A → Attempt A
  attempt reason pre m w = let (r, w') = m w in (attempted reason pre r, w')

  abbrev pub fetched : String → Result A → Outcome A
  fetched pre (ok a) = passed a
  fetched pre (err e) =
      if is_not_found e
      then skipped "Order not found"
      else broken "Failed to retrieve order" (wrap pre e)

  unfoldable pub fetch : String → Action A → Attempt A
  fetch pre m w = let (r, w') = m w in (fetched pre r, w')

-- What the loop collects: the results, the map of orders for the cache, the audit tasks.
pub record Batch (V : Type 0) : Type 0 where
  pub results : List BulkResult
  pub touched : Dict V
  pub tasks : List OutboxTask

abbrev pub empty_batch : {V : Type 0} → Batch V
empty_batch = record { results = []; touched = []; tasks = [] }

module _ {V : Type 0} where
  abbrev pub add_success : String → V × OutboxTask → Batch V → Batch V
  add_success id (v, task) b = record b {
    results = b.results ++ record { order_id = id; success = true; error = "" } ∷ [];
    touched = insert id v b.touched;
    tasks = b.tasks ++ task ∷ [];
  }

  abbrev pub add_failure : String → String → Batch V → Batch V
  add_failure id reason b = record b {
    results = b.results ++ record { order_id = id; success = false; error = reason } ∷ [];
  }

  -- The loop over the order ids; an error breaks it.
  unfoldable pub process_all :
      (String → Attempt (V × OutboxTask))
      → List String
      → Batch V
      → World
      → Batch V × Option Error × World
  process_all one [] b w = (b, none, w)
  process_all one (id ∷ ids) b w =
      let (out, w') = one id w in
      elim out [
        | passed p ↦ process_all one ids (add_success id p b) w'
        | skipped reason ↦ process_all one ids (add_failure id reason b) w'
        | broken reason e ↦ (add_failure id reason b, some e, w')
      ]

-- `for i := range results { if results[i].Success { … } }`
abbrev pub fail_result : String → BulkResult → BulkResult
fail_result reason r = if r.success then record r { success = false; error = reason } else r

unfoldable pub fail_all : String → List BulkResult → List BulkResult
fail_all reason = map (fail_result reason)

module _ (env : Env) where
  -- The loop over the audit tasks, which the first error breaks.
  unfoldable pub insert_tasks : String → List OutboxTask → Action (Unit {0})
  insert_tasks pre [] w = (ok tt, w)
  insert_tasks pre (t ∷ ts) w =
      let (r, w') = create_task_tx env t w in
      elim r [ ok _ ↦ insert_tasks pre ts w' | err e ↦ (err (wrap pre e), w') ]

  module _ {V : Type 0} where
    abbrev pub after_commit :
        (Dict V → World → World) → Batch V → Result (Unit {0}) × World → List BulkResult × World
    after_commit update b (ok _, w) = (b.results, update b.touched w)
    after_commit update b (err e, w) = (fail_all "Transaction commit failed" b.results, w)

    abbrev pub after_tasks :
        (Dict V → World → World)
        → Batch V
        → Result (Unit {0}) × World
        → (List BulkResult × Option Error) × World
    after_tasks update b (ok _, w) =
        let (rs, w') = after_commit update b (commit env w) in ((rs, none), w')
    after_tasks update b (err e, w) =
        ((fail_all "Failed to create audit log entry" b.results, some e), (rollback env w).1)

    -- What follows the loop: the audit tasks, and the deferred end of the transaction. The results
    -- share their array with what the method has returned, so marks made here are seen.
    unfoldable pub end_bulk :
        String
        → (Dict V → World → World)
        → Batch V × Option Error × World
        → (List BulkResult × Option Error) × World
    end_bulk pre update (b, some e, w) = ((b.results, some e), (rollback env w).1)
    end_bulk pre update (b, none, w) = after_tasks update b (insert_tasks pre b.tasks w)

    -- `now := s.timeNow().UTC()`, the loop and the end, once the transaction has begun
    abbrev pub run_bulk :
        String
        → (Dict V → World → World)
        → (ℕ → String → Attempt (V × OutboxTask))
        → List String
        → Result (Unit {0}) × World
        → (List BulkResult × Option Error) × World
    run_bulk pre update one ids (ok _, w) = end_bulk pre update (
        process_all (one (env.clock w.readings)) ids empty_batch
          (record w { readings = w.readings + 1 }))
    run_bulk pre update one ids (err e, w) = (([], some e), w)

    unfoldable pub bulk :
        String
        → String
        → (Dict V → World → World)
        → (ℕ → String → Attempt (V × OutboxTask))
        → List String
        → World
        → (List BulkResult × Option Error) × World
    bulk begin_pre task_pre update one [] w = (([], none), w)
    bulk begin_pre task_pre update one (id ∷ ids) w =
        run_bulk task_pre update one (id ∷ ids) (begin_wrapped env begin_pre w)

  unfoldable pub payload_of :
      String → String → String → String → String → Attempt Repository.AuditLogPayload
  payload_of action id user old new w =
      let (r, w') =
        create_audit_payload env action "order" id
          (some (("user_id", user) ∷ ("old_status", old) ∷ ("new_status", new) ∷ [])) w in
      (attempted "" "" r, w')

  unfoldable pub check_issue : String → ℕ → Repository.Order → Attempt (Unit {0})
  check_issue user at o =
      if not (o.recipient_id == user)
      then skip "Order does not belong to user"
      else if not (o.status == "received")
      then skip ("Order not in 'received' status (current: " ++ₛ (o.status ++ₛ ")"))
      else if ltb o.storage_until at
      then skip "Order storage period has expired"
      else finish tt

  -- `processOrder`
  unfoldable pub issue_one : String → ℕ → String → Attempt (Repository.Order × OutboxTask)
  issue_one user at id = do
    o ← fetch ("failed getting order " ++ₛ (id ++ₛ " in IssueOrders")) (get_by_id_tx env id)
    check_issue user at o
    attempt "Failed to update order status"
        ("failed updating order " ++ₛ (id ++ₛ " in IssueOrders"))
        (update_tx env (changed o "issued" at))
    attempt "Failed to record history"
        ("failed creating history for order " ++ₛ (id ++ₛ " in IssueOrders"))
        (create_history_tx env (new_history id "issued" at))
    payload ← payload_of "ORDER_ISSUED" id user o.status "issued"
    finish (changed o "issued" at, new_task "audit_logs" payload)

  -- Go visits the map in no fixed order; its keys are distinct.
  abbrev pub cache_set_all : Dict Repository.Order → World → World
  cache_set_all [] w = w
  cache_set_all ((id, o) ∷ os) w = cache_set_all os (cache_set o w)

  unfoldable pub issue_orders :
      String → List String → World → (List BulkResult × Option Error) × World
  issue_orders user =
      bulk "failed to begin transaction for issuing orders"
        "failed to create outbox task during bulk issue" cache_set_all (issue_one user)

  unfoldable pub check_accept : String → ℕ → Repository.Order → Attempt (Unit {0})
  check_accept user at o =
      if not (o.recipient_id == user)
      then skip "Order does not belong to user"
      else if not (o.status == "issued")
      then skip ("Order not in 'issued' status (current: " ++ₛ (o.status ++ₛ ")"))
      else if ltb return_period (at - o.updated_at)
      then skip "Return period expired"
      else finish tt

  -- `processReturn`
  unfoldable pub accept_one : String → ℕ → String → Attempt (Unit {0} × OutboxTask)
  accept_one user at id = do
    o ← fetch ("failed getting order " ++ₛ (id ++ₛ " in AcceptReturns")) (get_by_id_tx env id)
    check_accept user at o
    attempt "Failed to create return record"
        ("failed creating return entry for order " ++ₛ (id ++ₛ " in AcceptReturns"))
        (create_return_tx env (new_return id user at))
    attempt "Failed to update order status"
        ("failed updating order " ++ₛ (id ++ₛ " in AcceptReturns"))
        (update_tx env (changed o "returned" at))
    attempt "Failed to record history"
        ("failed creating history for order " ++ₛ (id ++ₛ " in AcceptReturns"))
        (create_history_tx env (new_history id "returned" at))
    payload ← payload_of "ORDER_RETURN_ACCEPTED" id user o.status "returned"
    finish (tt, new_task "audit_logs" payload)

  abbrev pub cache_delete_all : Dict (Unit {0}) → World → World
  cache_delete_all [] w = w
  cache_delete_all ((id, _) ∷ ids) w = cache_delete_all ids (cache_delete id w)

  unfoldable pub accept_returns :
      String → List String → World → (List BulkResult × Option Error) × World
  accept_returns user =
      bulk "failed to begin transaction for accepting returns"
        "failed to create outbox task during bulk return acceptance" cache_delete_all
        (accept_one user)
