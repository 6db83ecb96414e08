-- ===== src/Storage/Bulk/Audited.antt =====
-- The audit tasks of the bulk methods against their results.
use ozon_final.Base.{
  ℕ, String, ◌≡◌, ◌≢◌, refl, sym, ap, ◌∙◌, Option, none, some, List, [], ◌++◌, arith,
}
use mathlib.Core.Path.{subst}
use mathlib.Core.List.{append-nil}
use ozon_final.Base.Dict.{Dict}
use ozon_final.Errors.{Error}
use ozon_final.Repository.{OutboxTask}
use ozon_final.World.{Env, Tables, World, Answer, served, refused, lost, called}
use ozon_final.Postgres
use ozon_final.Postgres.{commit}
use ozon_final.Postgres.Ensures.{Post}
use ozon_final.Postgres.Frozen.{Frozen}
use ozon_final.Storage.Bulk.{
  BulkResult, Attempt, Batch, fail_all, insert_tasks, after_commit, bulk, issue_one, accept_one,
  issue_orders, accept_returns, cache_set_all, cache_delete_all,
}
use ozon_final.Storage.Bulk.Ensures.{AttemptEnsures}
use ozon_final.Storage.Logged.{Unlogged}
use ozon_final.Storage.Committed.{IsHonest}
use ozon_final.Storage.Frozen.{Frozen-issue_one, Frozen-accept_one}
use ozon_final.Storage.Bulk.Keeps.{AttemptKeeps}
use ozon_final.Storage.Invariants.{db-cache_set_all, db-cache_delete_all}
use ozon_final.Storage.Bulk.Rule.{bulk-Of}
use ozon_final.Storage.Bulk.Labels.{labels, expected, expected-fail_all}
use ozon_final.Storage.Bulk.Tasks.{
  Gives, issue_one-Gives, accept_one-Gives, Waiting, one-StepKeeps, Added, insert_tasks-Added,
}

-- The outbox has got one new task for each success, and none besides.
pub record Audited (action : String) (rs : List BulkResult) (base out : List OutboxTask)
    : Type 0 where
  pub added : List OutboxTask
  pub appended : out ≡ base ++ added
  pub labelled : labels added ≡ expected action rs

module _ (env : Env) (honest : IsHonest env) (action : String) (w₀ : World) where
  abbrev base : List OutboxTask
  base = w₀.db.outbox

  -- What a method returns without an error.
  abbrev Answered : (List BulkResult × Option Error) × World → Type 0
  Answered ((rs, none), w) = Audited action rs base w.db.outbox
  Answered ((rs, some e), w) = Unit

  none_added : (rs : List BulkResult) → expected action rs ≡ [] → Audited action rs base base
  none_added rs e = record { added = []; appended = sym (append-nil base); labelled = sym e }

  module _ {V : Type 0} (update : Dict V → World → World)
      (same : (d : Dict V) (w : World) → (update d w).db ≡ w.db) where
    after_commit-Audited :
        (b : Batch V) (r : Answer) (w : World)
        → ((m : String) → r ≢ lost m)
        → w.db ≡ w₀.db
        → Added env (expected action b.results) base w.work
        → Audited action
            (after_commit env update b (Postgres.committed env r w)).0
            base
            (after_commit env update b (Postgres.committed env r w)).1.db.outbox
    after_commit-Audited b served w n old (new, (out, ls)) = record {
      added = new;
      appended = ap (λ t. t.outbox) (same b.touched (record w { db = w.work })) ∙ out;
      labelled = ls;
    }
    after_commit-Audited b (refused m) w n old k =
        subst
          (λ (t : Tables).
            Audited action (fail_all "Transaction commit failed" b.results) base t.outbox)
          (sym old) (none_added _ (expected-fail_all action _ b.results))
    after_commit-Audited b (lost m) w n old k = absurd (n m refl)

    bulk-Answered :
        (one : ℕ → String → Attempt (V × OutboxTask))
        → ((at : ℕ) (id : String) → AttemptKeeps (Frozen w₀) (one at id))
        → ((at : ℕ) (id : String)
            → AttemptEnsures
                (Unlogged env base)
                (one at id)
                (Gives env base action id)
                (Unlogged env base))
        → (begin_pre pre : String) (ids : List String)
        → Answered (bulk env begin_pre pre update one ids w₀)
    unfolding commit
    bulk-Answered one kf gives begin_pre pre ids =
        bulk-Of env update (Waiting env base action)
          (λ b. Added env (expected action b.results) base) Answered w₀ (λ rs e w fr. tt)
          (λ b w fr k.
            after_commit-Audited b (env.answer w.calls) (called w) (honest.never_lost w.calls) fr.db
              k)
          (λ pre b w h.
            subst (λ ls. Post (λ _. Added env ls base) (insert_tasks env pre b.tasks w)) h.1
              (insert_tasks-Added env pre b.tasks base w h.0))
          one kf (λ at. one-StepKeeps env base action (one at) (gives at)) begin_pre pre ids
          (none_added [] refl) (refl, refl)

  no_error-Audited :
      (r : (List BulkResult × Option Error) × World)
      → Answered r
      → r.0.1 ≡ none
      → Audited action r.0.0 base r.1.db.outbox
  no_error-Audited ((rs, none), w) h e = h
  no_error-Audited ((rs, some x), w) h e = absurd (ground (arith, e))

module _ (env : Env) (honest : IsHonest env) (user : String) (ids : List String) (w : World) where
  -- If the database never loses the reply of a call that took effect and `IssueOrders` returns no error,
  -- the committed outbox has one new task for each order that the results call a success, in their order,
  -- which records that this order was issued, and no other new task; also where the commit fails.
  pub issue_orders-Audited :
      (issue_orders env user ids w).0.1 ≡ none
      → Audited "ORDER_ISSUED"
          (issue_orders env user ids w).0.0
          w.db.outbox
          (issue_orders env user ids w).1.db.outbox
  unfolding issue_orders
  issue_orders-Audited =
      no_error-Audited env honest "ORDER_ISSUED" w (issue_orders env user ids w) (
        bulk-Answered env honest "ORDER_ISSUED" w (cache_set_all env) (db-cache_set_all env)
          (issue_one env user) (Frozen-issue_one env user) (issue_one-Gives env w.db.outbox user) _
          _ ids)

  -- The same of `AcceptReturns` and the tasks that record accepted returns.
  pub accept_returns-Audited :
      (accept_returns env user ids w).0.1 ≡ none
      → Audited "ORDER_RETURN_ACCEPTED"
          (accept_returns env user ids w).0.0
          w.db.outbox
          (accept_returns env user ids w).1.db.outbox
  unfolding accept_returns
  accept_returns-Audited =
      no_error-Audited env honest "ORDER_RETURN_ACCEPTED" w (accept_returns env user ids w) (
        bulk-Answered env honest "ORDER_RETURN_ACCEPTED" w (cache_delete_all env)
          (db-cache_delete_all env) (accept_one env user) (Frozen-accept_one env user)
          (accept_one-Gives env w.db.outbox user) _ _ ids)
