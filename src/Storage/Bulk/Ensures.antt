-- ===== src/Storage/Bulk/Ensures.antt =====
-- What the steps of a bulk method and its loop ensure of the working copy.
use ozon_final.Base.{
  String, ◌≡◌, refl, Bool, true, false, if◌then◌else◌, Option, none, some, List, [], ◌∷◌,
}
use ozon_final.Errors.{Error, Result, ok, err, is_not_found}
use ozon_final.Repository.{OutboxTask}
use ozon_final.World.{Env, Tables, World, Action}
use ozon_final.Postgres.Ensures.{Ensures, Post}
use ozon_final.Postgres.Outbox.{create_task_tx}
use ozon_final.Storage.Bulk.{
  Attempt, Outcome, passed, skipped, broken, Batch, ◌>>=◌, carry_on, attempt, attempted, fetch,
  fetched, process_all, add_success, add_failure, insert_tasks,
}

module _ {A : Type 0} (Q : A → Tables → Type 0) (S : Tables → Type 0) where
  abbrev pub OutcomePost : Outcome A × World → Type 0
  OutcomePost (passed a, w) = Q a w.work
  OutcomePost (skipped r, w) = S w.work
  OutcomePost (broken r e, w) = Unit

-- From a working copy with `P`: `Q a` where the step passes with `a`, and `S` where it is skipped.
pub record AttemptEnsures {A : Type 0} (P : Tables → Type 0) (m : Attempt A)
    (Q : A → Tables → Type 0) (S : Tables → Type 0) : Type 0 where
  pub at : (w : World) → P w.work → OutcomePost Q S (m w)

module _ {A : Type 0} (P : Tables → Type 0) (Q : A → Tables → Type 0) (S : Tables → Type 0) where
  pub AttemptEnsures-attempt :
      (reason pre : String) (m : Action A)
      → Ensures P m Q
      → AttemptEnsures P (attempt reason pre m) Q S
  unfolding attempt
  AttemptEnsures-attempt reason pre m km = record { at = λ w h. by_result (m w) (km.at w h) }
    where
      by_result :
          (r : Result A × World) → Post Q r → OutcomePost Q S (attempted reason pre r.0, r.1)
      by_result (ok a, w) h = h
      by_result (err e, w) h = tt

  -- The step is skipped where the read finds nothing.
  pub AttemptEnsures-fetch :
      (pre : String) (m : Action A)
      → ((w : World)
          → P w.work
          → (e : Error) → (m w).0 ≡ err e
          → is_not_found e ≡ true
          → S (m w).1.work)
      → Ensures P m Q
      → AttemptEnsures P (fetch pre m) Q S
  unfolding fetch
  AttemptEnsures-fetch pre m ks km = record { at = λ w h. by_result (m w) (ks w h) (km.at w h) }
    where
      by_test :
          (b : Bool) (e : Error) (w : World)
          → (b ≡ true → S w.work)
          → OutcomePost {A = A} Q S
              (if b then skipped "Order not found" else broken "Failed to retrieve order" e, w)
      by_test true e w h = h refl
      by_test false e w h = tt

      by_result :
          (r : Result A × World)
          → ((e : Error) → r.0 ≡ err e → is_not_found e ≡ true → S r.1.work)
          → Post Q r
          → OutcomePost Q S (fetched pre r.0, r.1)
      by_result (ok a, w) s h = h
      by_result (err e, w) s h = by_test (is_not_found e) _ w (s e refl)

module _ {A B : Type 0} (P : Tables → Type 0) (Q : A → Tables → Type 0) (R : B → Tables → Type 0)
    (S : Tables → Type 0) where
  pub AttemptEnsures-bind :
      (m : Attempt A) (f : A → Attempt B)
      → AttemptEnsures P m Q S
      → ((a : A) → AttemptEnsures (Q a) (f a) R S)
      → AttemptEnsures P (m >>= f) R S
  unfolding ◌>>=◌
  AttemptEnsures-bind m f km kf = record { at = λ w h. next (m w) (km.at w h) }
    where
      next : (r : Outcome A × World) → OutcomePost Q S r → OutcomePost R S (carry_on r.0 f r.1)
      next (passed a, w) h = (kf a).at w h
      next (skipped r, w) h = h
      next (broken r e, w) h = tt

-- The loop: an invariant of the batch so far and the working copy.
module _ {V : Type 0} (I : Batch V → Tables → Type 0) where
  abbrev pub LoopPost : Batch V × Option Error × World → Type 0
  LoopPost (b, none, w) = I b w.work
  LoopPost (b, some e, w) = Unit

  module _ (one : String → Attempt (V × OutboxTask)) where
    abbrev pub StepKeeps : Type 0
    StepKeeps =
        (id : String) (b : Batch V)
        → AttemptEnsures (I b) (one id) (λ p. I (add_success id p b))
            (λ t. (reason : String) → I (add_failure id reason b) t)

    next_step :
        (out : Outcome (V × OutboxTask)) (id : String) (ids : List String) (b : Batch V) (w : World)
        → OutcomePost
            (λ p. I (add_success id p b))
            (λ t. (reason : String) → I (add_failure id reason b) t)
            (out, w)
        → ((b' : Batch V) → I b' w.work → LoopPost (process_all one ids b' w))
        → LoopPost (elim out as (λ _. Batch V × Option Error × World) [
          | passed p ↦ process_all one ids (add_success id p b) w
          | skipped reason ↦ process_all one ids (add_failure id reason b) w
          | broken reason e ↦ (add_failure id reason b, some e, w)
        ])
    next_step (passed p) id ids b w h rest = rest (add_success id p b) h
    next_step (skipped r) id ids b w h rest = rest (add_failure id r b) (h r)
    next_step (broken r e) id ids b w h rest = tt

    pub process_all-LoopPost :
        StepKeeps
        → (ids : List String) (b : Batch V) (w : World) → I b w.work
        → LoopPost (process_all one ids b w)
    unfolding process_all
    process_all-LoopPost k [] b w h = h
    process_all-LoopPost k (id ∷ ids) b w h =
        let (out, w') = one id w in
        next_step out id ids b w' ((k id b).at w h) (λ b'. process_all-LoopPost k ids b' w')

module _ (P : Tables → Type 0) (env : Env) where
  next_task :
      (r : Result (Unit {0})) (pre : String) (ts : List OutboxTask) (w : World)
      → Post (λ _. P) (r, w)
      → (P w.work → Post (λ _. P) (insert_tasks env pre ts w))
      → Post
          (λ _. P)
          (elim r as (λ _. Result (Unit {0}) × World) [
            | ok _ ↦ insert_tasks env pre ts w
            | err e ↦ (err (Error.wrap pre e), w)
          ])
  next_task (ok _) pre ts w h rest = rest h
  next_task (err e) pre ts w h rest = tt

  pub insert_tasks-Post :
      ((t : OutboxTask) → Ensures P (create_task_tx env t) (λ _. P))
      → (pre : String) (ts : List OutboxTask) (w : World) → P w.work
      → Post (λ _. P) (insert_tasks env pre ts w)
  unfolding insert_tasks
  insert_tasks-Post k pre [] w h = h
  insert_tasks-Post k pre (t ∷ ts) w h =
      let (r, w') = create_task_tx env t w in
      next_task r pre ts w' ((k t).at w h) (insert_tasks-Post k pre ts w')
