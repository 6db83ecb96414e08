-- ===== src/System/Publisher.antt =====
-- The publisher, under an invariant of the orders: it writes the outbox only.
use ozon_final.Base.{ℕ, none, List, [], ◌∷◌, arith}
use ozon_final.Errors.{Error, Result, ok, err}
use ozon_final.Repository.{OutboxTask, processing}
use ozon_final.World.{
  Env, Tables, World, Answer, served, refused, lost, called, Action, continue, mapped, ◌>>=◌,
  map_error, now, next_signal,
}
use ozon_final.World.Keeps.{Keeps, Keeps-pure, Keeps-bind, Keeps-map_error}
use ozon_final.Postgres.{on_pool, exec, query, answered, begun, begin_tx, commit, rollback}
use ozon_final.Postgres.Outbox.{
  update_task, update_task_status, update_task_status_tx, update_task_status_internal,
  get_processable_tasks,
}
use ozon_final.Kafka.Publisher.{
  process_single_task, send_message, after_success, after_failure, mark_tasks, or_rollback,
  claim_body, claim,
}
use ozon_final.System.Views.{View, Of}

module _ (env : Env) (J : View) where
  pub process_single_task-Of :
      (t : OutboxTask) (w : World) → Of J w → Of J (process_single_task env t w).1
  unfolding process_single_task send_message after_success after_failure update_task_status
      update_task_status_internal exec update_task ◌>>=◌ map_error now next_signal
  process_single_task-Of t w h = ground arith

  -- In the transaction the working copy has it, too.
  abbrev Both : World → Type 0
  Both w = Of J w × J w.work.orders w.work.history w.cache

  query-Both : {A : Type 0} (f : Tables → Result A) → Keeps Both (query env on_pool f)
  unfolding query
  query-Both {A} f = record { at = λ w h. by_answer (env.answer w.calls) (f w.db) (called w) h }
    where
      by_answer : (a : Answer) (r : Result A) (w : World) → Both w → Both (answered a r w).1
      by_answer served r w h = h
      by_answer (refused m) r w h = h
      by_answer (lost m) r w h = h

  update-Both : (id n : ℕ) → Keeps Both (update_task_status_tx env id processing n none none)
  unfolding update_task_status_tx update_task_status_internal exec update_task ◌>>=◌ map_error
  update-Both id n = record { at = λ w h. ground arith }

  mark_tasks-Both : (ts : List OutboxTask) (w : World) → Both w → Both (mark_tasks env ts w).1
  unfolding mark_tasks
  mark_tasks-Both [] w h = h
  mark_tasks-Both (t ∷ ts) w h =
      let marked : Both (update_task_status_tx env t.id processing t.attempts none none w).1 =
        (update-Both t.id t.attempts).at w h in
      ground (
        arith,
        mark_tasks-Both ts (update_task_status_tx env t.id processing t.attempts none none w).1
            marked,
      )

  claim_body-Both : (n : ℕ) → Keeps Both (claim_body env n)
  unfolding claim_body get_processable_tasks
  claim_body-Both n =
      Keeps-bind _ _ (Keeps-map_error _ _ (Keeps-map_error _ _ (query-Both _)))
        λ ts. Keeps-bind _ _ (record { at = mark_tasks-Both ts }) (λ _. Keeps-pure _)

  or_rollback-Both : (r : Result (List OutboxTask) × World) → Both r.1 → Both (or_rollback env r).1
  unfolding rollback
  or_rollback-Both (ok ts, w) h = h
  or_rollback-Both (err e, w) h = ground arith

  commit-Both : Keeps Both (commit env)
  unfolding commit
  commit-Both = record { at = λ w h. ground arith }

  -- What runs in a transaction that has begun.
  begun-Of :
      (f : Error → Error) (rest : Action (List OutboxTask))
      → Keeps Both rest
      → (w : World) → Of J w
      → Of J ((map_error f (begin_tx env) >>= λ _. rest) w).1
  unfolding ◌>>=◌ map_error begin_tx
  begun-Of f rest kr w h = by_answer (env.answer w.calls) (called w) h
    where
      by_answer :
          (a : Answer) (w : World)
          → Of J w
          → Of J (continue (mapped f (begun env a w).0) (λ _. rest) (begun env a w).1).1
      by_answer served w h = (kr.at (record w { work = w.db }) (h, h)).0
      by_answer (refused m) w h = h
      by_answer (lost m) w h = h

  pub claim-Of : (n : ℕ) (w : World) → Of J w → Of J (claim env n w).1
  unfolding claim
  claim-Of n = begun-Of _ _ (
      Keeps-bind _ _
        (record { at = λ w h. or_rollback-Both (claim_body env n w) ((claim_body-Both n).at w h) })
        (λ tasks. Keeps-bind _ _ (Keeps-map_error _ _ commit-Both) (λ _. Keeps-pure _)))
