-- ===== src/Storage/Updates.antt =====
-- What the deferred functions of internal/storage/filestorage.go do to the cache after their commits, as
-- a list of updates: other goroutines can come between a commit and its updates.
pub mod Applied
pub mod Lookup
use ozon_final.Base.{
  ℕ, ◌+◌, String, ◌≡◌, refl, sym, ap, ◌∙◌, Option, none, some, List, [], ◌∷◌, map,
}
use mathlib.Core.Path.{subst}
use ozon_final.Base.Dict.{Dict}
use ozon_final.Errors.{Error, Result, ok, err}
use ozon_final.Repository.{Order, OutboxTask}
use ozon_final.World.{Env, World, Answer, served, refused, lost, Action, called}
use ozon_final.World.Keeps.{Keeps}
use ozon_final.Cache
use ozon_final.Postgres
use ozon_final.Postgres.{commit}
use ozon_final.Postgres.Frozen.{Frozen, Frozen-refl, Frozen-rollback, Frozen-create_task_tx}
use ozon_final.Storage.{to_row, committed, close_tx, run_body, in_transaction}
use ozon_final.Storage.Orders
use ozon_final.Storage.Orders.{
  begin_wrapped, begin, add_order_body, update_status_body, delete_order_body, add_return_body,
}
use ozon_final.Storage.Bulk
use ozon_final.Storage.Bulk.{
  Attempt, Batch, after_commit, after_tasks, run_bulk, insert_tasks, end_bulk, bulk, empty_batch,
  process_all, cache_set_all, cache_delete_all, issue_one, accept_one,
}
use ozon_final.Storage.Bulk.Keeps.{AttemptKeeps, process_all-keeps, insert_tasks-keeps}
use ozon_final.Storage.Frozen.{
  Frozen-begin, Frozen-add_order_body, Frozen-update_status_body, Frozen-delete_order_body,
  Frozen-add_return_body, Frozen-issue_one, Frozen-accept_one,
}
use ozon_final.Storage.Invariants.{state-forget}
use ozon_final.Storage.Calls.{
  Method, add_order, update_order_status, delete_order, add_return, issue_orders, accept_returns,
  perform,
}

-- `orderCache.Set` and `orderCache.Delete`
pub data Update : Type 0 where
  put : Order → Update
  drop : String → Update

abbrev pub update : Update → Dict Order → Dict Order
update (put o) c = Cache.set o c
update (drop id) c = Cache.delete id c

unfoldable pub apply : List Update → Dict Order → Dict Order
apply [] c = c
apply (u ∷ us) c = apply us (update u c)

abbrev pub puts : Dict Order → List Update
puts = map (λ e. put e.1)

abbrev pub drops : Dict (Unit {0}) → List Update
drops = map (λ e. drop e.0)

module _ (env : Env) where
  -- The end of a commit: updates follow where it went well.
  abbrev pub once_committed : List Update → Result (Unit {0}) → List Update
  once_committed us (ok _) = us
  once_committed us (err e) = []

  module _ {A : Type 0} (us : A → List Update) where
    abbrev pub of_close : Result A × World → List Update
    of_close (ok a, w) = once_committed (us a) (commit env w).0
    of_close (err e, w) = []

    abbrev pub of_begin : Action A → Result (Unit {0}) × World → List Update
    of_begin body (ok _, w) = of_close (body w)
    of_begin body (err e, w) = []

  module _ {V : Type 0} (us : Dict V → List Update) where
    abbrev pub of_tasks : Batch V → Result (Unit {0}) × World → List Update
    of_tasks b (ok _, w) = once_committed (us b.touched) (commit env w).0
    of_tasks b (err e, w) = []

    abbrev pub of_loop : String → Batch V × Option Error × World → List Update
    of_loop pre (b, some e, w) = []
    of_loop pre (b, none, w) = of_tasks b (insert_tasks env pre b.tasks w)

    abbrev pub of_run :
        String
        → (ℕ → String → Attempt (V × OutboxTask))
        → List String
        → Result (Unit {0}) × World
        → List Update
    of_run pre one ids (ok _, w) = of_loop pre (
        process_all (one (env.clock w.readings)) ids empty_batch
          (record w { readings = w.readings + 1 }))
    of_run pre one ids (err e, w) = []

    abbrev pub of_bulk :
        String
        → String
        → (ℕ → String → Attempt (V × OutboxTask))
        → List String
        → World
        → List Update
    of_bulk begin_pre pre one [] w = []
    of_bulk begin_pre pre one (id ∷ ids) w =
        of_run pre one (id ∷ ids) (begin_wrapped env begin_pre w)

  -- The updates that a call has still to make when its transaction has ended.
  unfoldable pub updates : Method → World → List Update
  updates (add_order o) w = of_begin (λ _. put (to_row o) ∷ []) (add_order_body env o) (begin env w)
  updates (update_order_status id status) w =
      of_begin (λ o. put o ∷ []) (update_status_body env id status) (begin env w)
  updates (delete_order id) w =
      of_begin (λ _. drop id ∷ []) (delete_order_body env id) (begin env w)
  updates (add_return ret) w =
      of_begin (λ _. drop ret.order_id ∷ []) (add_return_body env ret) (begin env w)
  updates (issue_orders user ids) w =
      of_bulk puts "failed to begin transaction for issuing orders"
        "failed to create outbox task during bulk issue" (issue_one env user) ids w
  updates (accept_returns user ids) w =
      of_bulk drops "failed to begin transaction for accepting returns"
        "failed to create outbox task during bulk return acceptance" (accept_one env user) ids w
