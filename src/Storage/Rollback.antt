-- ===== src/Storage/Rollback.antt =====
-- The storage methods that end in an error.
use ozon_final.Base.{String, ◌≡◌, Option, none, some, List, [], ◌∷◌, ℕ, ◌+◌, arith}
use ozon_final.Base.Dict.{Dict}
use ozon_final.Errors.{Error, Result, ok, err}
use ozon_final.Repository.{OutboxTask}
use ozon_final.World.{Env, World, Action, pure, continue, ◌>>=◌}
use ozon_final.World.Keeps.{Keeps}
use ozon_final.Postgres.Frozen.{Frozen, Frozen-refl, Frozen-rollback, Frozen-create_task_tx}
use ozon_final.Storage.{close_tx, run_body, in_transaction}
use ozon_final.Storage.Orders
use ozon_final.Storage.Orders.{begin_wrapped}
use ozon_final.Storage.Bulk
use ozon_final.Storage.Bulk.{
  Attempt, Batch, after_tasks, run_bulk, insert_tasks, end_bulk, bulk, empty_batch,
}
use ozon_final.Storage.Bulk.Keeps.{AttemptKeeps, process_all-keeps, insert_tasks-keeps}
use ozon_final.Storage.Frozen.{
  Frozen-begin, Frozen-add_order_body, Frozen-update_status_body, Frozen-delete_order_body,
  Frozen-add_return_body, Frozen-issue_one, Frozen-accept_one,
}
use ozon_final.Storage.Calls.{
  Method, add_order, update_order_status, delete_order, add_return, issue_orders, accept_returns,
  error_of, bulk_error_of, perform,
}

-- What holds of a call that began in the first state and returned an error.
abbrev Undone : World → Option Error × World → Type 0
Undone w₀ (none, w) = Unit
Undone w₀ (some e, w) = Frozen w₀ w

module _ {A : Type 0} (env : Env) (w₀ : World) where
  close_tx-Undone :
      (update : A → World → World) (r : Result A × World)
      → Frozen w₀ r.1
      → Undone w₀ (error_of (r.0, close_tx env update r))
  unfolding close_tx
  close_tx-Undone update (ok a, w) h = tt
  close_tx-Undone update (err e, w) h = (Frozen-rollback env).at w h

  run_body-Undone :
      (update : A → World → World) (body : Action A) (r : Result (Unit {0}) × World)
      → Keeps (Frozen w₀) body
      → Frozen w₀ r.1
      → Undone w₀ (error_of (run_body env update body r))
  run_body-Undone update body (ok _, w) km h = close_tx-Undone update (body w) (km.at w h)
  run_body-Undone update body (err e, w) km h = h

  in_transaction-Undone :
      (pre : String) (update : A → World → World) (body : Action A)
      → Keeps (Frozen w₀) body
      → Undone w₀ (error_of (in_transaction env (begin_wrapped env pre) update body w₀))
  unfolding in_transaction
  in_transaction-Undone pre update body km =
      run_body-Undone update body (begin_wrapped env pre w₀) km
        ((Frozen-begin env pre).at w₀ (Frozen-refl w₀))

module _ {V : Type 0} (env : Env) (w₀ : World) where
  after_tasks-Undone :
      (update : Dict V → World → World) (b : Batch V) (r : Result (Unit {0}) × World)
      → Frozen w₀ r.1
      → Undone w₀ (bulk_error_of (after_tasks env update b r))
  after_tasks-Undone update b (ok _, w) h = tt
  after_tasks-Undone update b (err e, w) h = (Frozen-rollback env).at w h

  end_bulk-Undone :
      (pre : String) (update : Dict V → World → World) (r : Batch V × Option Error × World)
      → Frozen w₀ r.2
      → Undone w₀ (bulk_error_of (end_bulk env pre update r))
  unfolding end_bulk
  end_bulk-Undone pre update (b, some e, w) h = (Frozen-rollback env).at w h
  end_bulk-Undone pre update (b, none, w) h =
      after_tasks-Undone update b (insert_tasks env pre b.tasks w)
        (insert_tasks-keeps (Frozen w₀) env (Frozen-create_task_tx env) pre b.tasks w h)

  module _ (one : ℕ → String → Attempt (V × OutboxTask)) where
    run_bulk-Undone :
        (pre : String) (update : Dict V → World → World) (ids : List String)
        (r : Result (Unit {0}) × World)
        → ((at : ℕ) (id : String) → AttemptKeeps (Frozen w₀) (one at id))
        → Frozen w₀ r.1
        → Undone w₀ (bulk_error_of (run_bulk env pre update one ids r))
    run_bulk-Undone pre update ids (ok _, w) k h = end_bulk-Undone pre update _ (
        process_all-keeps (Frozen w₀) _ (k (env.clock w.readings)) ids empty_batch
          (record w { readings = w.readings + 1 })
          (record { db = h.db; cache = h.cache; sent = h.sent }))
    run_bulk-Undone pre update ids (err e, w) k h = h

    bulk-Undone :
        (begin_pre pre : String) (update : Dict V → World → World) (ids : List String)
        → ((at : ℕ) (id : String) → AttemptKeeps (Frozen w₀) (one at id))
        → Undone w₀ (bulk_error_of (bulk env begin_pre pre update one ids w₀))
    unfolding bulk
    bulk-Undone begin_pre pre update [] k = tt
    bulk-Undone begin_pre pre update (id ∷ ids) k =
        run_bulk-Undone pre update (id ∷ ids) (begin_wrapped env begin_pre w₀) k
          ((Frozen-begin env begin_pre).at w₀ (Frozen-refl w₀))

forget-Undone :
    {A : Type 0} (w₀ : World) (m : Action A)
    → Undone w₀ (error_of (m w₀))
    → Undone w₀ (error_of ((m >>= λ _. pure tt) w₀))
unfolding ◌>>=◌
forget-Undone {A} w₀ m h = by_result (m w₀) h
  where
    by_result :
        (r : Result A × World)
        → Undone w₀ (error_of r)
        → Undone w₀ (error_of (continue r.0 (λ _. pure tt) r.1))
    by_result (ok a, w) h = tt
    by_result (err e, w) h = h

perform-Undone : (env : Env) (m : Method) (w₀ : World) → Undone w₀ (perform env m w₀)
unfolding perform Orders.add_order Orders.update_order_status Orders.delete_order Orders.add_return
    Bulk.issue_orders Bulk.accept_returns
perform-Undone env (add_order o) w = in_transaction-Undone env w _ _ _ (Frozen-add_order_body env o)
perform-Undone env (update_order_status id status) w =
    forget-Undone w _ (in_transaction-Undone env w _ _ _ (Frozen-update_status_body env id status))
perform-Undone env (delete_order id) w =
    in_transaction-Undone env w _ _ _ (Frozen-delete_order_body env id)
perform-Undone env (add_return ret) w =
    in_transaction-Undone env w _ _ _ (Frozen-add_return_body env ret)
perform-Undone env (issue_orders user ids) w =
    bulk-Undone env w _ _ _ _ ids (Frozen-issue_one env user)
perform-Undone env (accept_returns user ids) w =
    bulk-Undone env w _ _ _ _ ids (Frozen-accept_one env user)

-- Whatever the database answers, a call of a storage method that returns an error leaves the
-- committed tables and the cache as they were before the call.
pub perform_error-Frozen :
    (env : Env) (m : Method) (w : World) {e : Error}
    → (perform env m w).0 ≡ some e
    → ((perform env m w).1.db ≡ w.db) × ((perform env m w).1.cache ≡ w.cache)
perform_error-Frozen env m w h = ground (arith, perform-Undone env m w)
