-- ===== src/Storage/Bulk/Rule.antt =====
-- The rule for the bulk methods: what holds of every way in which a batch can end.
use ozon_final.Base.{ℕ, ◌+◌, String, ◌≡◌, refl, sym, Option, none, some, List, [], ◌∷◌}
use mathlib.Core.Path.{subst}
use ozon_final.Base.Dict.{Dict}
use ozon_final.Errors.{Error, Result, ok, err}
use ozon_final.Repository.{OutboxTask}
use ozon_final.World.{Env, Tables, World}
use ozon_final.Postgres.{commit}
use ozon_final.Postgres.Ensures.{Post}
use ozon_final.Postgres.Frozen.{Frozen, Frozen-refl, Frozen-rollback, Frozen-create_task_tx}
use ozon_final.Storage.Orders.{begin_wrapped}
use ozon_final.Storage.Bulk.{
  BulkResult, Attempt, Batch, after_commit, after_tasks, run_bulk, insert_tasks, end_bulk, bulk,
  empty_batch, process_all,
}
use ozon_final.Storage.Bulk.Keeps.{AttemptKeeps, process_all-keeps, insert_tasks-keeps}
use ozon_final.Storage.Bulk.Ensures.{StepKeeps, LoopPost, process_all-LoopPost}
use ozon_final.Storage.Frozen.{begin_wrapped-work, Frozen-begin}

-- `I` holds in the loop, `J` before the commit, and `R` is to hold of the method.
module _ (env : Env) {V : Type 0} (update : Dict V → World → World)
    (I J : Batch V → Tables → Type 0) (R : (List BulkResult × Option Error) × World → Type 0)
    (w₀ : World)
    (failed : (rs : List BulkResult) (e : Error) (w : World) → Frozen w₀ w → R ((rs, some e), w))
    (done : (b : Batch V) (w : World)
      → Frozen w₀ w
      → J b w.work
      → R (
        ((after_commit env update b (commit env w)).0, none),
        (after_commit env update b (commit env w)).1,
      ))
    (tasks : (pre : String) (b : Batch V) (w : World)
      → I b w.work
      → Post (λ _. J b) (insert_tasks env pre b.tasks w)) where
  after_tasks-Of :
      (b : Batch V) (r : Result (Unit {0}) × World)
      → Frozen w₀ r.1
      → Post (λ _. J b) r
      → R (after_tasks env update b r)
  after_tasks-Of b (ok _, w) fr h = done b w fr h
  after_tasks-Of b (err e, w) fr h = failed _ e _ ((Frozen-rollback env).at w fr)

  end_bulk-Of :
      (pre : String) (r : Batch V × Option Error × World)
      → Frozen w₀ r.2
      → LoopPost I r
      → R (end_bulk env pre update r)
  unfolding end_bulk
  end_bulk-Of pre (b, some e, w) fr h = failed _ e _ ((Frozen-rollback env).at w fr)
  end_bulk-Of pre (b, none, w) fr h =
      after_tasks-Of b (insert_tasks env pre b.tasks w)
        (insert_tasks-keeps (Frozen w₀) env (Frozen-create_task_tx env) pre b.tasks w fr)
        (tasks pre b w h)

  module _ (one : ℕ → String → Attempt (V × OutboxTask))
      (kf : (at : ℕ) (id : String) → AttemptKeeps (Frozen w₀) (one at id))
      (ks : (at : ℕ) → StepKeeps I (one at)) where
    run_bulk-Of :
        (pre : String) (ids : List String) (r : Result (Unit {0}) × World)
        → Frozen w₀ r.1
        → (r.0 ≡ ok tt → r.1.work ≡ w₀.db)
        → I empty_batch w₀.db
        → R (run_bulk env pre update one ids r)
    run_bulk-Of pre ids (ok _, w) fr copied start =
        let at = env.clock w.readings in
        let w' : World = record w { readings = w.readings + 1 } in
        end_bulk-Of pre (process_all (one at) ids empty_batch w')
          (process_all-keeps (Frozen w₀) (one at) (kf at) ids empty_batch w'
            (record { db = fr.db; cache = fr.cache; sent = fr.sent }))
          (process_all-LoopPost I (one at) (ks at) ids empty_batch w'
            (subst (I empty_batch) (sym (copied refl)) start))
    run_bulk-Of pre ids (err e, w) fr copied start = failed [] e w fr

    pub bulk-Of :
        (begin_pre pre : String) (ids : List String)
        → R (([], none), w₀)
        → I empty_batch w₀.db
        → R (bulk env begin_pre pre update one ids w₀)
    unfolding bulk
    bulk-Of begin_pre pre [] none_given start = none_given
    bulk-Of begin_pre pre (id ∷ ids) none_given start =
        run_bulk-Of pre (id ∷ ids) (begin_wrapped env begin_pre w₀)
          ((Frozen-begin env begin_pre).at w₀ (Frozen-refl w₀))
          (begin_wrapped-work env begin_pre w₀) start
