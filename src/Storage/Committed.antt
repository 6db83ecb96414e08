-- ===== src/Storage/Committed.antt =====
-- The rule for a relation between the committed rows and the cache, across the deferred function, with
-- a server that executes what it acknowledges and nothing else.
use ozon_final.Base.{ℕ, String, ◌≡◌, refl, sym, ◌≢◌, ap, List}
use mathlib.Core.Path.{subst, subst₂}
use ozon_final.Base.Dict.{Dict}
use ozon_final.Errors.{Result, ok, err}
use ozon_final.Repository.{Order, OutboxTask}
use ozon_final.World.{Env, Tables, World, Answer, served, refused, lost, Action, called}
use ozon_final.World.Keeps.{Keeps}
use ozon_final.Postgres
use ozon_final.Postgres.{commit, rollback}
use ozon_final.Postgres.Ensures.{Ensures, Post}
use ozon_final.Postgres.Frozen.{Frozen, Frozen-refl, Frozen-rollback}
use ozon_final.Storage.{committed, close_tx, run_body, in_transaction}
use ozon_final.Storage.Orders.{begin_wrapped}
use ozon_final.Storage.Bulk.{Attempt, Batch, after_commit, bulk, empty_batch}
use ozon_final.Storage.Bulk.Keeps.{AttemptKeeps}
use ozon_final.Storage.Bulk.Rule.{bulk-Of}
use ozon_final.Storage.Bulk.Ensures.{StepKeeps, insert_tasks-Post}
use ozon_final.Storage.Frozen.{begin_wrapped-work, Frozen-begin}
use ozon_final.Storage.Rows.{On, create_task_tx-On}

-- No call takes effect without a reply.
pub record IsHonest (env : Env) : Type 0 where
  pub never_lost : (n : ℕ) (m : String) → env.answer n ≢ lost m

abbrev pub Synced : (List Order → Dict Order → Type 0) → World → Type 0
Synced J w = J w.db.orders w.cache

module _ (env : Env) (honest : IsHonest env) (J : List Order → Dict Order → Type 0) where
  Synced-Frozen : {w₀ w : World} → Frozen w₀ w → Synced J w₀ → Synced J w
  Synced-Frozen f h = subst₂ (λ (t : Tables) c. J t.orders c) (sym f.db) (sym f.cache) h

  module _ {A : Type 0} (f : A → Dict Order → Dict Order) where
    abbrev pub on_cache : A → World → World
    on_cache a w = record w { cache = f a w.cache }

    committed-Synced :
        (a : A) (r : Answer) (w : World)
        → ((m : String) → r ≢ lost m)
        → Synced J w
        → J w.work.orders (f a w.cache)
        → Synced J (committed on_cache a (Postgres.committed env r w))
    committed-Synced a served w n h k = k
    committed-Synced a (refused m) w n h k = h
    committed-Synced a (lost m) w n h k = absurd (n m refl)

    module _ (Q : A → List Order → Type 0) (w₀ : World)
        (step : (a : A) (os : List Order) → Q a os → J os (f a w₀.cache)) where
      close_tx-Synced :
          (r : Result A × World)
          → Synced J w₀
          → Frozen w₀ r.1
          → Post (λ a. On (Q a)) r
          → Synced J (close_tx env on_cache r)
      unfolding close_tx commit
      close_tx-Synced (ok a, w) h fr k =
          committed-Synced a (env.answer w.calls) (called w) (honest.never_lost w.calls)
            (Synced-Frozen fr h)
            (subst (λ c. J w.work.orders (f a c)) (sym fr.cache) (step a w.work.orders k))
      close_tx-Synced (err e, w) h fr k = Synced-Frozen ((Frozen-rollback env).at w fr) h

      run_body-Synced :
          (body : Action A) (r : Result (Unit {0}) × World)
          → Synced J w₀
          → Frozen w₀ r.1
          → (r.0 ≡ ok tt → r.1.work ≡ w₀.db)
          → Keeps (Frozen w₀) body
          → Ensures (On (λ os. os ≡ w₀.db.orders)) body (λ a. On (Q a))
          → Synced J (run_body env on_cache body r).1
      run_body-Synced body (ok _, w) h fr copied kf ke =
          close_tx-Synced (body w) h (kf.at w fr) (ke.at w (ap (λ t. t.orders) (copied refl)))
      run_body-Synced body (err e, w) h fr copied kf ke = Synced-Frozen fr h

      pub in_transaction-Synced :
          (pre : String) (body : Action A)
          → Synced J w₀
          → Keeps (Frozen w₀) body
          → Ensures (On (λ os. os ≡ w₀.db.orders)) body (λ a. On (Q a))
          → Synced J (in_transaction env (begin_wrapped env pre) on_cache body w₀).1
      unfolding in_transaction
      in_transaction-Synced pre body h kf ke =
          run_body-Synced body (begin_wrapped env pre w₀) h
            ((Frozen-begin env pre).at w₀ (Frozen-refl w₀)) (begin_wrapped-work env pre w₀) kf ke

  module _ {V : Type 0} (update : Dict V → World → World) (I : Batch V → List Order → Type 0)
      (w₀ : World)
      (step : (b : Batch V) (w : World)
        → w.cache ≡ w₀.cache
        → I b w.db.orders
        → Synced J (update b.touched w)) where
    after_commit-Synced :
        (b : Batch V) (r : Answer) (w : World)
        → ((m : String) → r ≢ lost m)
        → Frozen w₀ w
        → Synced J w₀
        → I b w.work.orders
        → Synced J (after_commit env update b (Postgres.committed env r w)).1
    after_commit-Synced b served w n fr h k = step b (record w { db = w.work }) fr.cache k
    after_commit-Synced b (refused m) w n fr h k = Synced-Frozen fr h
    after_commit-Synced b (lost m) w n fr h k = absurd (n m refl)

    pub bulk-Synced :
        (one : ℕ → String → Attempt (V × OutboxTask))
        → ((at : ℕ) (id : String) → AttemptKeeps (Frozen w₀) (one at id))
        → ((at : ℕ) → StepKeeps (λ b. On (I b)) (one at))
        → (begin_pre pre : String) (ids : List String) → Synced J w₀
        → I empty_batch w₀.db.orders
        → Synced J (bulk env begin_pre pre update one ids w₀).1
    unfolding commit
    bulk-Synced one kf ks begin_pre pre ids h start =
        bulk-Of env update (λ b. On (I b)) (λ b. On (I b)) (λ r. Synced J r.1) w₀
          (λ rs e w fr. Synced-Frozen fr h)
          (λ b w fr k.
            after_commit-Synced b (env.answer w.calls) (called w) (honest.never_lost w.calls)
              (record { db = fr.db; cache = fr.cache; sent = fr.sent }) h k)
          (λ pre b w k.
            insert_tasks-Post (On (I b)) env (create_task_tx-On env (I b)) pre b.tasks w k)
          one kf ks begin_pre pre ids h start
