-- ===== src/Kafka/Publisher.antt =====
-- internal/kafka/producer.go and publisher.go: a batch of outbox tasks is marked as PROCESSING in one
-- transaction, and then each task is sent and its end recorded.
use Prim.Native.String.{◌++◌ as ◌++ₛ◌}
use ozon_final.Base.{ℕ, zero, suc, ◌+◌, ◌%◌, ◌^◌, none, some, List, [], ◌∷◌, ◌++◌}
use ozon_final.Errors.{Error, text, wrap, message, Result, ok, err}
use ozon_final.Repository.{OutboxTask, processing, failed, done}
use ozon_final.World.{
  Env, World, Message, refused, quiet, shutdown, cancelled, Action, pure, raise, ◌>>=◌, ◌>>◌,
  map_error, now, next_signal,
}
use ozon_final.Postgres.{begin_tx, commit, rollback}
use ozon_final.Postgres.Outbox.{get_processable_tasks, update_task_status_tx, update_task_status}

pub record PublisherConfig : Type 0 where
  pub batch_size : ℕ
  pub max_attempts : ℕ

-- `ctx.Err()` of a cancelled context
abbrev pub context_canceled : Error
context_canceled = text "context canceled"

module _ (env : Env) where
  abbrev pub deliver : Message → World → World
  deliver m w = record w { sent = w.sent ++ m ∷ [] }

  -- `ConsoleProducer.SendMessage`: the message is out after 50 ms, unless the context is done first.
  unfoldable pub send_message : Message → Action (Unit {0})
  send_message m = do
    signal ← next_signal env
    elim signal [
      | quiet ↦ λ w. (ok tt, deliver m w)
      | shutdown ↦ λ w. (ok tt, deliver m w)
      | cancelled ↦ raise context_canceled
    ]

  abbrev pub message_of : OutboxTask → Message
  message_of task = record { topic = task.topic; key = env.show_id task.id; value = task.payload }

  -- A call of the database under a context that is done is refused and has no effect.
  abbrev pub under_done : Env
  under_done = record env { answer = λ n. refused "context canceled" }

  -- `SendMessage` fails only where the context is done, and the update has the same context.
  unfoldable pub after_failure : OutboxTask → Error → Action (Unit {0})
  after_failure task e = do
    map_error (wrap "failed to update task status after send failure") (
        update_task_status under_done task.id failed ((task.attempts + 1) % 2 ^ 64)
          (some (message e)) none)
    raise e

  unfoldable pub after_success : OutboxTask → Action (Unit {0})
  after_success task = do
    at ← now env
    map_error (wrap "failed to update task status after successful send")
        (update_task_status env task.id done task.attempts none (some at))

  abbrev pub after_send : OutboxTask → Result (Unit {0}) × World → Result (Unit {0}) × World
  after_send task (ok _, w) = after_success task w
  after_send task (err e, w) = after_failure task e w

  -- `processSingleTask`; `MaxAttempts` only decides what is logged
  unfoldable pub process_single_task : OutboxTask → Action (Unit {0})
  process_single_task task w = after_send task (send_message (message_of task) w)

  -- The first loop of `processBatch`
  unfoldable pub mark_tasks : List OutboxTask → Action (Unit {0})
  mark_tasks [] w = (ok tt, w)
  mark_tasks (t ∷ ts) w =
      let (r, w') = update_task_status_tx env t.id processing t.attempts none none w in
      elim r [
        | ok _ ↦ mark_tasks ts w'
        | err e ↦
            (err (wrap ("failed to mark task " ++ₛ (env.show_id t.id ++ₛ " as PROCESSING")) e), w')
      ]

  -- The second loop: the error of one task is logged, and the next one follows.
  unfoldable pub send_tasks : List OutboxTask → Action (Unit {0})
  send_tasks [] w = (ok tt, w)
  send_tasks (t ∷ ts) w =
      let w' = record w { selects = w.selects + 1 } in
      elim (env.signal w.selects) [
        | quiet ↦ (let (_, w'') = process_single_task t w' in send_tasks ts w'')
        | shutdown ↦ (err (text "publisher shutdown during batch processing"), w')
        | cancelled ↦ (err context_canceled, w')
      ]

  -- Up to the commit, an error reaches the deferred rollback while the transaction is open.
  abbrev pub or_rollback : Result (List OutboxTask) × World → Result (List OutboxTask) × World
  or_rollback (ok ts, w) = (ok ts, w)
  or_rollback (err e, w) = let (_, w') = rollback env w in (err e, w')

  unfoldable pub claim_body : ℕ → Action (List OutboxTask)
  claim_body batch_size = do
    tasks ←
        map_error (wrap "failed to get processable tasks") (get_processable_tasks env batch_size)
    mark_tasks tasks
    pure tasks

  -- The transaction of `processBatch`: the tasks that it has marked and committed.
  unfoldable pub claim : ℕ → Action (List OutboxTask)
  claim batch_size = do
    map_error (wrap "failed to begin transaction for fetching tasks") (begin_tx env)
    tasks ← λ w. or_rollback (claim_body batch_size w)
    map_error
        (λ e. elim tasks [
          | [] ↦ e
          | _ ↦ wrap "failed to commit transaction after marking tasks as PROCESSING" e
        ])
        (commit env)
    pure tasks

  unfoldable pub process_batch : PublisherConfig → Action (Unit {0})
  process_batch config = do tasks ← claim config.batch_size; send_tasks tasks

  -- `Run` for a number of rounds of its `select`: a tick of the timer starts a batch, whose error is
  -- logged; the other signals end the loop.
  unfoldable pub run : PublisherConfig → ℕ → World → World
  run config zero w = w
  run config (suc n) w =
      let w' = record w { selects = w.selects + 1 } in
      elim (env.signal w.selects) [
        | quiet ↦ (let (_, w'') = process_batch config w' in run config n w'')
        | shutdown ↦ w'
        | cancelled ↦ w'
      ]
