-- ===== src/Kafka/Marked.antt =====
-- The outbox in the first loop of `processBatch`, which marks the tasks of a batch.
use Prim.Native.String.{◌++◌ as ◌++ₛ◌}
use ozon_final.Base.{ℕ, ◌≡◌, refl, true, Option, none, some, List, [], ◌∷◌, All, arith}
use ozon_final.Errors.{wrap, Result, ok, err}
use ozon_final.Repository.{OutboxTask, TaskStatus, processing}
use ozon_final.World.{Env, World, ◌>>=◌, map_error}
use ozon_final.Postgres.{exec}
use ozon_final.Postgres.Outbox.{
  find_task, has_task, set_task_rows, update_task, update_task_status_tx,
  update_task_status_internal,
}
use ozon_final.Kafka.Publisher.{mark_tasks}

abbrev pub status_of : ℕ → List OutboxTask → Option TaskStatus
status_of id ts = elim (find_task id ts) [ none ↦ none | some t ↦ some t.status ]

abbrev pub IsMarked : ℕ → List OutboxTask → Type 0
IsMarked id ts = status_of id ts ≡ some processing

module _ (env : Env) where
  set_task_rows-IsMarked :
      (id j n : ℕ) (ts : List OutboxTask)
      → IsMarked j ts
      → IsMarked j (set_task_rows env id processing n none none ts)
  unfolding find_task set_task_rows
  set_task_rows-IsMarked id j n [] h = h
  set_task_rows-IsMarked id j n (t ∷ ts) h = ground (arith, set_task_rows-IsMarked id j n ts)

  set_task_rows-marks :
      (id n : ℕ) (ts : List OutboxTask)
      → has_task id ts ≡ true
      → IsMarked id (set_task_rows env id processing n none none ts)
  unfolding find_task set_task_rows
  set_task_rows-marks id n [] h = ground arith
  set_task_rows-marks id n (x ∷ ts) h = ground (arith, set_task_rows-marks id n ts)

  -- Marking one task leaves every marked task marked, and without an error marks it.
  update-IsMarked :
      (id n j : ℕ) (w : World)
      → IsMarked j w.work.outbox
      → IsMarked j (update_task_status_tx env id processing n none none w).1.work.outbox
  unfolding update_task_status_tx update_task_status_internal exec update_task ◌>>=◌ map_error
  update-IsMarked id n j w h = ground (arith, set_task_rows-IsMarked id j n w.work.outbox h)

  update-marks :
      (id n : ℕ) (w : World)
      → (update_task_status_tx env id processing n none none w).0 ≡ ok tt
      → IsMarked id (update_task_status_tx env id processing n none none w).1.work.outbox
  unfolding update_task_status_tx update_task_status_internal exec update_task ◌>>=◌ map_error
  update-marks id n w h = ground (arith, set_task_rows-marks id n w.work.outbox)

  -- The first loop after the update of one task.
  abbrev pub resume :
      OutboxTask → List OutboxTask → Result (Unit {0}) × World → Result (Unit {0}) × World
  resume t ts r = elim r.0 [
    | ok _ ↦ mark_tasks env ts r.1
    | err e ↦
        (err (wrap ("failed to mark task " ++ₛ (env.show_id t.id ++ₛ " as PROCESSING")) e), r.1)
  ]

  -- The first loop, whatever it returns, leaves a marked task marked.
  mark_tasks-IsMarked :
      (j : ℕ) (ts : List OutboxTask) (w : World)
      → IsMarked j w.work.outbox
      → IsMarked j (mark_tasks env ts w).1.work.outbox
  unfolding mark_tasks
  mark_tasks-IsMarked j [] w h = h
  mark_tasks-IsMarked j (t ∷ ts) w h =
      next (update_task_status_tx env t.id processing t.attempts none none w)
        (update-IsMarked t.id t.attempts j w h) (mark_tasks-IsMarked j ts)
    where
      next :
          (r : Result (Unit {0}) × World)
          → IsMarked j r.1.work.outbox
          → ((w' : World)
              → IsMarked j w'.work.outbox
              → IsMarked j (mark_tasks env ts w').1.work.outbox)
          → IsMarked j (resume t ts r).1.work.outbox
      next (ok _, w') k rest = rest w' k
      next (err e, w') k rest = k

  -- Without an error, it has marked every task.
  pub mark_tasks-All :
      (ts : List OutboxTask) (w : World)
      → (mark_tasks env ts w).0 ≡ ok tt
      → All (λ t. IsMarked t.id (mark_tasks env ts w).1.work.outbox) ts
  unfolding mark_tasks
  mark_tasks-All [] w h = tt
  mark_tasks-All (t ∷ ts) w h =
      next (update_task_status_tx env t.id processing t.attempts none none w)
        (update-marks t.id t.attempts w) (mark_tasks-All ts) h
    where
      next :
          (r : Result (Unit {0}) × World)
          → (r.0 ≡ ok tt → IsMarked t.id r.1.work.outbox)
          → ((w' : World)
              → (mark_tasks env ts w').0 ≡ ok tt
              → All (λ t. IsMarked t.id (mark_tasks env ts w').1.work.outbox) ts)
          → (resume t ts r).0 ≡ ok tt
          → All (λ x. IsMarked x.id (resume t ts r).1.work.outbox) (t ∷ ts)
      next (ok _, w') k rest e = (mark_tasks-IsMarked t.id ts w' (k refl), rest w' e)
      next (err x, w') k rest e = ground (arith, e)
