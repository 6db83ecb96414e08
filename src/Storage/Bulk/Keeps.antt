-- ===== src/Storage/Bulk/Keeps.antt =====
-- Invariants of one step of a bulk method, and of the loop over the order ids.
use ozon_final.Base.{String, Bool, true, false, Option, some, List, [], ◌∷◌, if◌then◌else◌}
use ozon_final.Errors.{Error, Result, ok, err}
use ozon_final.Repository.{OutboxTask}
use ozon_final.World.{Env, World, Action}
use ozon_final.World.Keeps
use ozon_final.Postgres.Outbox.{create_task_tx}
use ozon_final.Storage.Bulk.{
  Attempt, Outcome, passed, skipped, broken, Batch, ◌>>=◌, carry_on, finish, skip, attempt, fetch,
  process_all, add_success, add_failure, insert_tasks,
}

pub record AttemptKeeps {A : Type 0} (P : World → Type 0) (m : Attempt A) : Type 0 where
  pub at : (w : World) → P w → P (m w).1

module _ {P : World → Type 0} where
  module _ {A : Type 0} where
    pub AttemptKeeps-finish : (a : A) → AttemptKeeps P (finish a)
    AttemptKeeps-finish a = record { at = λ w h. h }

    pub AttemptKeeps-skip : (reason : String) → AttemptKeeps P (skip {A = A} reason)
    AttemptKeeps-skip reason = record { at = λ w h. h }

    pub AttemptKeeps-if :
        (b : Bool) (m n : Attempt A)
        → AttemptKeeps P m
        → AttemptKeeps P n
        → AttemptKeeps P (if b then m else n)
    AttemptKeeps-if true m n km kn = km
    AttemptKeeps-if false m n km kn = kn

    pub AttemptKeeps-attempt :
        (reason pre : String) (m : Action A)
        → Keeps.Keeps P m
        → AttemptKeeps P (attempt reason pre m)
    unfolding attempt
    AttemptKeeps-attempt reason pre m km = record { at = λ w h. km.at w h }

    pub AttemptKeeps-fetch :
        (pre : String) (m : Action A) → Keeps.Keeps P m → AttemptKeeps P (fetch pre m)
    unfolding fetch
    AttemptKeeps-fetch pre m km = record { at = λ w h. km.at w h }

  module _ {A B : Type 0} where
    AttemptKeeps-carry_on :
        (r : Outcome A) (f : A → Attempt B)
        → ((a : A) → AttemptKeeps P (f a))
        → AttemptKeeps P (carry_on r f)
    AttemptKeeps-carry_on (passed a) f kf = kf a
    AttemptKeeps-carry_on (skipped r) f kf = record { at = λ w h. h }
    AttemptKeeps-carry_on (broken r e) f kf = record { at = λ w h. h }

    pub AttemptKeeps-bind :
        (m : Attempt A) (f : A → Attempt B)
        → AttemptKeeps P m
        → ((a : A) → AttemptKeeps P (f a))
        → AttemptKeeps P (m >>= f)
    unfolding ◌>>=◌
    AttemptKeeps-bind m f km kf = record {
      at = λ w h. let (r, w') = m w in (AttemptKeeps-carry_on r f kf).at w' (km.at w h);
    }

-- The loop keeps what each step keeps.
module _ (P : World → Type 0) where
  module _ {V : Type 0} (one : String → Attempt (V × OutboxTask)) where
    next_step :
        (out : Outcome (V × OutboxTask)) (id : String) (ids : List String) (b : Batch V) (w : World)
        → P w
        → ((b' : Batch V) → P (process_all one ids b' w).2)
        → P
            (elim out as (λ _. Batch V × Option Error × World) [
              | passed p ↦ process_all one ids (add_success id p b) w
              | skipped reason ↦ process_all one ids (add_failure id reason b) w
              | broken reason e ↦ (add_failure id reason b, some e, w)
            ]).2
    next_step (passed p) id ids b w h rest = rest (add_success id p b)
    next_step (skipped r) id ids b w h rest = rest (add_failure id r b)
    next_step (broken r e) id ids b w h rest = h

    pub process_all-keeps :
        ((id : String) → AttemptKeeps P (one id))
        → (ids : List String) (b : Batch V) (w : World) → P w
        → P (process_all one ids b w).2
    unfolding process_all
    process_all-keeps k [] b w h = h
    process_all-keeps k (id ∷ ids) b w h =
        let (out, w') = one id w in
        let h' : P w' = (k id).at w h in
        next_step out id ids b w' h' (λ b'. process_all-keeps k ids b' w' h')

  module _ (env : Env) where
    next_task :
        (r : Result (Unit {0})) (pre : String) (ts : List OutboxTask) (w : World)
        → P w
        → P (insert_tasks env pre ts w).1
        → P
            (elim r as (λ _. Result (Unit {0}) × World) [
              | ok _ ↦ insert_tasks env pre ts w
              | err e ↦ (err (Error.wrap pre e), w)
            ]).1
    next_task (ok _) pre ts w h rest = rest
    next_task (err e) pre ts w h rest = h

    pub insert_tasks-keeps :
        ((t : OutboxTask) → Keeps.Keeps P (create_task_tx env t))
        → (pre : String) (ts : List OutboxTask) (w : World) → P w
        → P (insert_tasks env pre ts w).1
    unfolding insert_tasks
    insert_tasks-keeps k pre [] w h = h
    insert_tasks-keeps k pre (t ∷ ts) w h =
        let (r, w') = create_task_tx env t w in
        let h' : P w' = (k t).at w h in next_task r pre ts w' h' (insert_tasks-keeps k pre ts w' h')

pub ruleset attempt_rules = (
  AttemptKeeps-finish, AttemptKeeps-skip, AttemptKeeps-if, AttemptKeeps-attempt, AttemptKeeps-fetch,
  AttemptKeeps-bind,
)
