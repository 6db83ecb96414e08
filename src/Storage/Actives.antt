-- ===== src/Storage/Actives.antt =====
-- The statuses of the orders in the cache.
use ozon_final.Base.{
  ℕ, String, ◌≡◌, refl, sym, Bool, true, false, List, [], ◌∷◌, All, if◌then◌else◌, ◌==◌,
}
use mathlib.Core.Path.{subst}
use ozon_final.Base.Dict.{Dict, insert, remove}
use ozon_final.Errors.{Result, ok, err}
use ozon_final.Repository.{Order, OutboxTask}
use ozon_final.World.{Env, Tables, World, Answer, served, refused, lost, Action, called}
use ozon_final.World.Keeps.{Keeps}
use ozon_final.Cache
use ozon_final.Cache.{is_active_status}
use ozon_final.Postgres
use ozon_final.Postgres.{commit}
use ozon_final.Postgres.Frozen.{Frozen, Frozen-refl, Frozen-rollback}
use ozon_final.Storage.{to_row, committed, close_tx, run_body, in_transaction}
use ozon_final.Storage.Orders
use ozon_final.Storage.Orders.{begin_wrapped}
use ozon_final.Storage.Bulk
use ozon_final.Storage.Bulk.{
  Attempt, Outcome, passed, skipped, broken, Batch, after_commit, after_tasks, run_bulk,
  insert_tasks, end_bulk, bulk, empty_batch, process_all, cache_set_all, cache_delete_all,
}
use ozon_final.Postgres.Ensures.{Post}
use ozon_final.Storage.Bulk.Rule.{bulk-Of}
use ozon_final.Storage.Bulk.Ensures.{StepKeeps, OutcomePost}
use ozon_final.Storage.Bulk.Keeps.{AttemptKeeps}
use ozon_final.Storage.Frozen.{
  Frozen-begin, Frozen-add_order_body, Frozen-update_status_body, Frozen-delete_order_body,
  Frozen-add_return_body, Frozen-issue_one, Frozen-accept_one,
}
use ozon_final.Storage.Invariants.{state-forget}
use ozon_final.Storage.Calls.{
  Method, add_order, update_order_status, delete_order, add_return, issue_orders, accept_returns,
  perform,
}

abbrev IsActive : String × Order → Type 0
IsActive (id, o) = is_active_status o.status ≡ true

abbrev pub Actives : Dict Order → Type 0
Actives c = All IsActive c

pub delete-Actives : (id : String) (c : Dict Order) → Actives c → Actives (Cache.delete id c)
unfolding Cache.delete remove
delete-Actives id [] h = tt
delete-Actives id ((k, o) ∷ c) h = by_test (k == id) (delete-Actives id c h.1)
  where
    by_test :
        (b : Bool)
        → Actives (remove id c)
        → Actives (if b then remove id c else (k, o) ∷ remove id c)
    by_test true rest = rest
    by_test false rest = (h.0, rest)

pub set-Actives : (o : Order) (c : Dict Order) → Actives c → Actives (Cache.set o c)
unfolding Cache.set Cache.delete insert
set-Actives o c h = by_test (is_active_status o.status) refl
  where
    by_test :
        (b : Bool)
        → is_active_status o.status ≡ b
        → Actives (if b then (o.id, o) ∷ remove o.id c else remove o.id c)
    by_test true e = (e, delete-Actives o.id c h)
    by_test false e = delete-Actives o.id c h

module _ (env : Env) (w₀ : World) (h : Actives w₀.cache) where
  kept : {w : World} → Frozen w₀ w → Actives w.cache
  kept f = subst Actives (sym f.cache) h

  module _ {A : Type 0} (f : A → Dict Order → Dict Order)
      (step : (a : A) (c : Dict Order) → Actives c → Actives (f a c)) where
    abbrev on_cache : A → World → World
    on_cache a w = record w { cache = f a w.cache }

    close_tx-Actives :
        (r : Result A × World) → Frozen w₀ r.1 → Actives (close_tx env on_cache r).cache
    unfolding close_tx commit
    close_tx-Actives (ok a, w) k = by_answer (env.answer w.calls) (called w) (kept k)
      where
        by_answer :
            (x : Answer) (w : World)
            → Actives w.cache
            → Actives (committed on_cache a (Postgres.committed env x w)).cache
        by_answer served w c = step a w.cache c
        by_answer (refused m) w c = c
        by_answer (lost m) w c = c
    close_tx-Actives (err e, w) k = kept ((Frozen-rollback env).at w k)

    in_transaction-Actives :
        (pre : String) (body : Action A)
        → Keeps (Frozen w₀) body
        → Actives (in_transaction env (begin_wrapped env pre) on_cache body w₀).1.cache
    unfolding in_transaction
    in_transaction-Actives pre body k =
        by_begin (begin_wrapped env pre w₀) ((Frozen-begin env pre).at w₀ (Frozen-refl w₀))
      where
        by_begin :
            (r : Result (Unit {0}) × World)
            → Frozen w₀ r.1
            → Actives (run_body env on_cache body r).1.cache
        by_begin (ok _, w) fr = close_tx-Actives (body w) (k.at w fr)
        by_begin (err e, w) fr = kept fr

  module _ {V : Type 0} (update : Dict V → World → World)
      (step : (d : Dict V) (w : World) → Actives w.cache → Actives (update d w).cache) where
    after_commit-Actives :
        (b : Batch V) (x : Answer) (w : World)
        → Actives w.cache
        → Actives (after_commit env update b (Postgres.committed env x w)).1.cache
    after_commit-Actives b served w c = step b.touched (record w { db = w.work }) c
    after_commit-Actives b (refused m) w c = c
    after_commit-Actives b (lost m) w c = c

    -- Of the tables nothing is needed.
    Anything : Batch V → Tables → Type 0
    Anything b t = Unit

    one-Anything : (one : String → Attempt (V × OutboxTask)) → StepKeeps Anything one
    unfolding Anything
    one-Anything one id b = record { at = λ w h. by_outcome (one id w) }
      where
        by_outcome :
            (r : Outcome (V × OutboxTask) × World)
            → OutcomePost (λ p t. Unit {0}) (λ t. (reason : String) → Unit {0}) r
        by_outcome (passed p, w) = tt
        by_outcome (skipped r, w) = λ reason. tt
        by_outcome (broken r e, w) = tt

    tasks-Anything : (b : Batch V) (r : Result (Unit {0}) × World) → Post (λ _. Anything b) r
    unfolding Anything
    tasks-Anything b (ok _, w) = tt
    tasks-Anything b (err e, w) = tt

    bulk-Actives :
        (one : ℕ → String → Attempt (V × OutboxTask))
        → ((at : ℕ) (id : String) → AttemptKeeps (Frozen w₀) (one at id))
        → (begin_pre pre : String) (ids : List String)
        → Actives (bulk env begin_pre pre update one ids w₀).1.cache
    unfolding commit Anything
    bulk-Actives one kf begin_pre pre ids =
        bulk-Of env update Anything Anything (λ r. Actives r.1.cache) w₀ (λ rs e w fr. kept fr)
          (λ b w fr k. after_commit-Actives b (env.answer w.calls) (called w) (kept fr))
          (λ pre b w k. tasks-Anything b (insert_tasks env pre b.tasks w)) one kf
          (λ at. one-Anything (one at)) begin_pre pre ids h tt

set_all-Actives :
    (env : Env) (d : Dict Order) (w : World)
    → Actives w.cache
    → Actives (cache_set_all env d w).cache
set_all-Actives env [] w h = h
set_all-Actives env ((id, o) ∷ d) w h = set_all-Actives env d _ (set-Actives o w.cache h)

delete_all-Actives :
    (env : Env) (d : Dict (Unit {0})) (w : World)
    → Actives w.cache
    → Actives (cache_delete_all env d w).cache
delete_all-Actives env [] w h = h
delete_all-Actives env ((id, _) ∷ d) w h = delete_all-Actives env d _ (delete-Actives id w.cache h)

pub perform-Actives :
    (env : Env) (m : Method) (w : World) → Actives w.cache → Actives (perform env m w).1.cache
unfolding perform Orders.add_order Orders.update_order_status Orders.delete_order Orders.add_return
    Bulk.issue_orders Bulk.accept_returns
perform-Actives env (add_order o) w h =
    in_transaction-Actives env w h _ (λ _ c. set-Actives (to_row o) c) _ _
      (Frozen-add_order_body env o)
perform-Actives env (update_order_status id status) w h =
    subst (λ w'. Actives w'.cache) (sym (state-forget _ w))
      (in_transaction-Actives env w h Cache.set set-Actives _ _
        (Frozen-update_status_body env id status))
perform-Actives env (delete_order id) w h =
    in_transaction-Actives env w h _ (λ _. delete-Actives id) _ _ (Frozen-delete_order_body env id)
perform-Actives env (add_return ret) w h =
    in_transaction-Actives env w h _ (λ _. delete-Actives ret.order_id) _ _
      (Frozen-add_return_body env ret)
perform-Actives env (issue_orders user ids) w h =
    bulk-Actives env w h _ (set_all-Actives env) _ (Frozen-issue_one env user) _ _ ids
perform-Actives env (accept_returns user ids) w h =
    bulk-Actives env w h _ (delete_all-Actives env) _ (Frozen-accept_one env user) _ _ ids
