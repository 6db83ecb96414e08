-- ===== src/Kafka/Delivery.antt =====
-- What `processSingleTask` and the loops of `processBatch` do to the outbox and to the broker.
use ozon_final.Base.{◌≡◌, ◌≢◌, ◌⊎◌, none, some, [], ◌∷◌, ◌++◌, arith}
use ozon_final.Errors.{ok}
use ozon_final.Repository.{OutboxTask, done}
use ozon_final.World.{Env, World, ◌>>=◌, map_error, now, next_signal}
use ozon_final.Postgres.{exec}
use ozon_final.Postgres.Outbox.{
  set_task_rows, update_task, update_task_status, update_task_status_internal,
}
use ozon_final.Kafka.Publisher.{
  send_message, message_of, process_single_task, after_success, after_failure,
}

-- If `processSingleTask` returns no error, the broker has received the task's message and nothing else,
-- and the rows of the outbox are the old ones with this task done.
pub process_single_task-done :
    (env : Env) (task : OutboxTask) (w : World)
    → (process_single_task env task w).0 ≡ ok tt
    → ((process_single_task env task w).1.sent ≡ w.sent ++ message_of env task ∷ [])
      × ((process_single_task env task w).1.db.outbox
          ≡ set_task_rows env task.id done task.attempts none
              (some (env.clock w.readings))
              w.db.outbox)
unfolding process_single_task send_message after_success after_failure update_task_status
    update_task_status_internal exec update_task ◌>>=◌ map_error now next_signal
process_single_task-done env task w h = ground arith

-- Whatever the broker and the database answer, `processSingleTask` either sends nothing, changes nothing in
-- the database and returns an error, or it sends the task's message once and leaves the outbox as it was or
-- with this task done. It marks no task as failed.
pub process_single_task-ends :
    (env : Env) (task : OutboxTask) (w : World)
    → (((process_single_task env task w).0 ≢ ok tt)
        × ((process_single_task env task w).1.sent ≡ w.sent)
        × ((process_single_task env task w).1.db ≡ w.db))
      ⊎ (((process_single_task env task w).1.sent ≡ w.sent ++ message_of env task ∷ [])
          × (((process_single_task env task w).1.db.outbox ≡ w.db.outbox)
              ⊎ ((process_single_task env task w).1.db.outbox
                  ≡ set_task_rows env task.id done task.attempts none
                      (some (env.clock w.readings))
                      w.db.outbox)))
unfolding process_single_task send_message after_success after_failure update_task_status
    update_task_status_internal exec update_task ◌>>=◌ map_error now next_signal
process_single_task-ends env task w = ground arith
