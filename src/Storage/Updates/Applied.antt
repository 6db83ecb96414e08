-- ===== src/Storage/Updates/Applied.antt =====
-- The cache after a method of the storage is the cache before it with the method's updates.
use ozon_final.Base.{ℕ, ◌+◌, String, ◌≡◌, refl, ap, ◌∙◌, Option, none, some, List, [], ◌∷◌}
use ozon_final.Base.Dict.{Dict}
use ozon_final.Errors.{Error, Result, ok, err}
use ozon_final.Repository.{Order, OutboxTask}
use ozon_final.World.{Env, World, Answer, served, refused, lost, Action, called}
use ozon_final.World.Keeps.{Keeps}
use ozon_final.Postgres
use ozon_final.Postgres.{commit}
use ozon_final.Postgres.Frozen.{Frozen, Frozen-refl, Frozen-rollback, Frozen-create_task_tx}
use ozon_final.Storage.{committed, close_tx, run_body, in_transaction}
use ozon_final.Storage.Orders
use ozon_final.Storage.Orders.{
  begin_wrapped, begin, add_order_body, update_status_body, delete_order_body, add_return_body,
}
use ozon_final.Storage.Bulk
use ozon_final.Storage.Bulk.{
  Attempt, Batch, after_commit, after_tasks, run_bulk, insert_tasks, end_bulk, bulk, empty_batch,
  process_all, cache_set_all, cache_delete_all, issue_one, accept_one,
}
use ozon_final.Storage.Bulk.Keeps.{AttemptKeeps, process_all-keeps, insert_tasks-keeps}
use ozon_final.Storage.Frozen.{
  Frozen-begin, Frozen-add_order_body, Frozen-update_status_body, Frozen-delete_order_body,
  Frozen-add_return_body, Frozen-issue_one, Frozen-accept_one,
}
use ozon_final.Storage.Invariants.{state-forget}
use ozon_final.Storage.Calls.{
  Method, add_order, update_order_status, delete_order, add_return, issue_orders, accept_returns,
  perform,
}
use ozon_final.Storage.Updates.{
  Update, apply, puts, drops, once_committed, of_close, of_begin, of_tasks, of_loop, of_run,
  of_bulk, updates,
}

module _ (env : Env) where
  module _ (w₀ : World) where
    -- The cache is the first one with these updates.
    abbrev Updated : List Update → World → Type 0
    Updated us w = w.cache ≡ apply us w₀.cache

    untouched : {w : World} → Frozen w₀ w → Updated [] w
    unfolding apply
    untouched f = f.cache

    module _ {A : Type 0} (us : A → List Update) where
      abbrev with_updates : A → World → World
      with_updates a w = record w { cache = apply (us a) w.cache }

      close-Updated :
          (r : Result A × World)
          → Frozen w₀ r.1
          → Updated (of_close env us r) (close_tx env with_updates r)
      unfolding close_tx commit apply
      close-Updated (ok a, w) k = by_answer (env.answer w.calls)
        where
          by_answer :
              (x : Answer)
              → Updated
                  (once_committed env (us a) (Postgres.committed env x (called w)).0)
                  (committed with_updates a (Postgres.committed env x (called w)))
          by_answer served = ap (apply (us a)) k.cache
          by_answer (refused m) = k.cache
          by_answer (lost m) = k.cache
      close-Updated (err e, w) k = untouched ((Frozen-rollback env).at w k)

      in_transaction-Updated :
          (body : Action A)
          → Keeps (Frozen w₀) body
          → Updated
              (of_begin env us body (begin env w₀))
              (in_transaction env (begin env) with_updates body w₀).1
      unfolding in_transaction apply
      in_transaction-Updated body k =
          by_begin (begin env w₀)
            ((Frozen-begin env "failed to begin transaction").at w₀ (Frozen-refl w₀))
        where
          by_begin :
              (r : Result (Unit {0}) × World)
              → Frozen w₀ r.1
              → Updated (of_begin env us body r) (run_body env with_updates body r).1
          by_begin (ok _, w) fr = close-Updated (body w) (k.at w fr)
          by_begin (err e, w) fr = untouched fr

    module _ {V : Type 0} (us : Dict V → List Update) (update : Dict V → World → World)
        (same : (d : Dict V) (w : World) → (update d w).cache ≡ apply (us d) w.cache) where
      after_tasks-Updated :
          (b : Batch V) (r : Result (Unit {0}) × World)
          → Frozen w₀ r.1
          → Updated (of_tasks env us b r) (after_tasks env update b r).1
      unfolding commit apply
      after_tasks-Updated b (ok _, w) fr = by_answer (env.answer w.calls)
        where
          by_answer :
              (x : Answer)
              → Updated
                  (once_committed env (us b.touched) (Postgres.committed env x (called w)).0)
                  (after_commit env update b (Postgres.committed env x (called w))).1
          by_answer served =
              same b.touched (record (called w) { db = w.work })
              ∙ ap (apply (us b.touched)) fr.cache
          by_answer (refused m) = fr.cache
          by_answer (lost m) = fr.cache
      after_tasks-Updated b (err e, w) fr = untouched ((Frozen-rollback env).at w fr)

      end_bulk-Updated :
          (pre : String) (r : Batch V × Option Error × World)
          → Frozen w₀ r.2
          → Updated (of_loop env us pre r) (end_bulk env pre update r).1
      unfolding end_bulk
      end_bulk-Updated pre (b, some e, w) fr = untouched ((Frozen-rollback env).at w fr)
      end_bulk-Updated pre (b, none, w) fr =
          after_tasks-Updated b (insert_tasks env pre b.tasks w)
            (insert_tasks-keeps (Frozen w₀) env (Frozen-create_task_tx env) pre b.tasks w fr)

      module _ (one : ℕ → String → Attempt (V × OutboxTask))
          (kf : (at : ℕ) (id : String) → AttemptKeeps (Frozen w₀) (one at id)) where
        run_bulk-Updated :
            (pre : String) (ids : List String) (r : Result (Unit {0}) × World)
            → Frozen w₀ r.1
            → Updated (of_run env us pre one ids r) (run_bulk env pre update one ids r).1
        run_bulk-Updated pre ids (ok _, w) fr =
            let w' : World = record w { readings = w.readings + 1 } in
            end_bulk-Updated pre (process_all (one (env.clock w.readings)) ids empty_batch w') (
              process_all-keeps (Frozen w₀) _ (kf (env.clock w.readings)) ids empty_batch w'
                (record { db = fr.db; cache = fr.cache; sent = fr.sent }))
        run_bulk-Updated pre ids (err e, w) fr = untouched fr

        bulk-Updated :
            (begin_pre pre : String) (ids : List String)
            → Updated
                (of_bulk env us begin_pre pre one ids w₀)
                (bulk env begin_pre pre update one ids w₀).1
        unfolding bulk
        bulk-Updated begin_pre pre [] = untouched (Frozen-refl w₀)
        bulk-Updated begin_pre pre (id ∷ ids) =
            run_bulk-Updated pre (id ∷ ids) (begin_wrapped env begin_pre w₀)
              ((Frozen-begin env begin_pre).at w₀ (Frozen-refl w₀))

  set_all-apply :
      (d : Dict Order) (w : World) → (cache_set_all env d w).cache ≡ apply (puts d) w.cache
  unfolding apply
  set_all-apply [] w = refl
  set_all-apply ((id, o) ∷ d) w = set_all-apply d _

  delete_all-apply :
      (d : Dict (Unit {0})) (w : World) → (cache_delete_all env d w).cache ≡ apply (drops d) w.cache
  unfolding apply
  delete_all-apply [] w = refl
  delete_all-apply ((id, _) ∷ d) w = delete_all-apply d _

  -- A method does its updates, and nothing else, to the cache.
  pub perform-updates :
      (m : Method) (w : World) → (perform env m w).1.cache ≡ apply (updates env m w) w.cache
  unfolding perform updates apply Orders.add_order Orders.update_order_status Orders.delete_order
      Orders.add_return Bulk.issue_orders Bulk.accept_returns
  perform-updates (add_order o) w = in_transaction-Updated w _ _ (Frozen-add_order_body env o)
  perform-updates (update_order_status id status) w =
      ap (λ w'. w'.cache) (state-forget _ w)
      ∙ in_transaction-Updated w _ _ (Frozen-update_status_body env id status)
  perform-updates (delete_order id) w =
      in_transaction-Updated w _ _ (Frozen-delete_order_body env id)
  perform-updates (add_return ret) w = in_transaction-Updated w _ _ (Frozen-add_return_body env ret)
  perform-updates (issue_orders user ids) w =
      bulk-Updated w puts (cache_set_all env) set_all-apply _ (Frozen-issue_one env user) _ _ ids
  perform-updates (accept_returns user ids) w =
      bulk-Updated w drops (cache_delete_all env) delete_all-apply _ (Frozen-accept_one env user) _
        _ ids
