-- ===== src/Storage/Durable.antt =====
-- From the working copy of a transaction to the committed tables: the rules for invariants of the
-- tables that bodies and methods share.
use ozon_final.Base.{ℕ, String, ◌≡◌, refl, sym, List, arith}
use mathlib.Core.Path.{subst}
use ozon_final.Base.Dict.{Dict}
use ozon_final.Errors.{Result, ok, err}
use ozon_final.Repository.{OutboxTask}
use ozon_final.World.{Env, Tables, World, Action}
use ozon_final.World.Keeps.{Keeps}
use ozon_final.Postgres.{commit}
use ozon_final.Postgres.Ensures.{Ensures, Post}
use ozon_final.Postgres.Frozen.{Frozen, Frozen-refl, Frozen-rollback}
use ozon_final.Postgres.Outbox.{create_task_tx}
use ozon_final.Storage.{committed, close_tx, run_body, in_transaction}
use ozon_final.Storage.Orders.{begin_wrapped}
use ozon_final.Storage.Bulk.{Attempt, Batch, after_commit, bulk}
use ozon_final.Storage.Bulk.Keeps.{AttemptKeeps}
use ozon_final.Storage.Bulk.Rule.{bulk-Of}
use ozon_final.Storage.Bulk.Ensures.{StepKeeps, insert_tasks-Post}
use ozon_final.Storage.Frozen.{Frozen-begin, begin_wrapped-work}

module _ (P : Tables → Type 0) (env : Env) where
  -- A commit leaves the old tables or the working copy.
  commit-db : (w : World) → P w.db → P w.work → P (commit env w).1.db
  unfolding commit
  commit-db w h k = ground arith

  module _ {A : Type 0} (update : A → World → World)
      (same : (a : A) (w : World) → (update a w).db ≡ w.db) where
    committed-db : (a : A) (r : Result (Unit {0}) × World) → P r.1.db → P (committed update a r).db
    committed-db a (ok _, w) h = subst P (sym (same a w)) h
    committed-db a (err e, w) h = h

    close_tx-db :
        (w₀ : World) (r : Result A × World)
        → P w₀.db
        → Frozen w₀ r.1
        → Post (λ _. P) r
        → P (close_tx env update r).db
    unfolding close_tx
    close_tx-db w₀ (ok a, w) h f k =
        committed-db a (commit env w) (commit-db w (subst P (sym f.db) h) k)
    close_tx-db w₀ (err e, w) h f k = subst P (sym ((Frozen-rollback env).at w f).db) h

    run_body-db :
        (w₀ : World) (body : Action A) (r : Result (Unit {0}) × World)
        → P w₀.db
        → Frozen w₀ r.1
        → (r.0 ≡ ok tt → r.1.work ≡ w₀.db)
        → Keeps (Frozen w₀) body
        → Ensures P body (λ _. P)
        → P (run_body env update body r).1.db
    run_body-db w₀ body (ok _, w) h f copied kf ke =
        close_tx-db w₀ (body w) h (kf.at w f) (ke.at w (subst P (sym (copied refl)) h))
    run_body-db w₀ body (err e, w) h f copied kf ke = subst P (sym f.db) h

    pub in_transaction-db :
        (pre : String) (body : Action A) (w : World)
        → P w.db
        → Keeps (Frozen w) body
        → Ensures P body (λ _. P)
        → P (in_transaction env (begin_wrapped env pre) update body w).1.db
    unfolding in_transaction
    in_transaction-db pre body w h kf ke =
        run_body-db w body (begin_wrapped env pre w) h ((Frozen-begin env pre).at w (Frozen-refl w))
          (begin_wrapped-work env pre w) kf ke

  module _ {V : Type 0} (update : Dict V → World → World)
      (same : (d : Dict V) (w : World) → (update d w).db ≡ w.db) where
    after_commit-db :
        (b : Batch V) (r : Result (Unit {0}) × World)
        → P r.1.db
        → P (after_commit env update b r).1.db
    after_commit-db b (ok _, w) h = subst P (sym (same b.touched w)) h
    after_commit-db b (err e, w) h = h

    pub bulk-db :
        (one : ℕ → String → Attempt (V × OutboxTask)) (begin_pre pre : String) (ids : List String)
        (w : World)
        → P w.db
        → ((at : ℕ) (id : String) → AttemptKeeps (Frozen w) (one at id))
        → ((at : ℕ) → StepKeeps (λ _. P) (one at))
        → ((t : OutboxTask) → Ensures P (create_task_tx env t) (λ _. P))
        → P (bulk env begin_pre pre update one ids w).1.db
    bulk-db one begin_pre pre ids w h kf ks kt =
        bulk-Of env update (λ _. P) (λ _. P) (λ r. P r.1.db) w (λ rs e w' fr. subst P (sym fr.db) h)
          (λ b w' fr k. after_commit-db b (commit env w') (commit-db w' (subst P (sym fr.db) h) k))
          (λ pre b w' k. insert_tasks-Post P env kt pre b.tasks w' k) one kf ks begin_pre pre ids h
          h
