-- ===== src/Tests/Publishing.antt =====
-- The publisher on one audit task.
use ozon_final.Base.{
  ◌≤◌, ◌≡◌, ◌≢◌, ◌⊎◌, List, inl, inr, refl, none, some, [], ◌∷◌, All, length, keep, arith,
}
use ozon_final.Base.Sorting.{sort_by, take}
use ozon_final.Repository.{OutboxTask, AuditLogPayload, new_task, done, processing}
use ozon_final.World.{Env, World, cancelled}
use ozon_final.Errors.{ok}
use ozon_final.World
use ozon_final.Postgres
use ozon_final.Postgres.Outbox
use ozon_final.Postgres.Outbox.{processable_rows, is_processable, set_task_rows}
use ozon_final.Postgres.Outbox.Selection.{Eligible, eligible, processable_rows_lem}
use mathlib.Core.List.{Perm}
use ozon_final.Base.Sorting.Order.{IsSorted}
use ozon_final.Kafka.Publisher.{
  PublisherConfig, message_of, process_single_task, claim, process_batch, run, context_canceled,
}
use ozon_final.Kafka.Publisher
use ozon_final.Kafka.Delivery.{process_single_task-done, process_single_task-ends}
use ozon_final.Kafka.Marked.{IsMarked}
use ozon_final.Kafka.Stranded.{process_batch-stranded}
use ozon_final.Kafka.Stuck.{Stuck}
use ozon_final.Kafka.Rounds.{run-Stuck}
use ozon_final.Tests.{calm, stopping, two, tables}

abbrev audit : AuditLogPayload
audit = record {
  timestamp = 100;
  user_id = "";
  order_id = "";
  method = "";
  path = "";
  handler = "";
  status_code = 0;
  request = "";
  response = "";
  old_status = "";
  new_status = "received";
  action = "ORDER_CREATED";
  entity_id = "a";
  entity_type = "order";
}

abbrev task : OutboxTask
task = record (new_task "audit_logs" audit) { id = 7 }

abbrev queued : World
queued = record two { db = record tables { outbox = task ∷ [] } }

processable_rows_lem_example :
    (found : List OutboxTask) × Perm found (keep eligible (task ∷ []))
    × All Eligible found
    × IsSorted (λ a b. a.updated_at ≤ b.updated_at) found
    × (processable_rows calm 10 (task ∷ []) ≡ take 10 found)
    × (length (processable_rows calm 10 (task ∷ [])) ≤ 10)
processable_rows_lem_example = processable_rows_lem calm 10 (task ∷ [])

process_single_task-done_example :
    ((process_single_task calm task queued).1.sent ≡ message_of calm task ∷ [])
    × ((process_single_task calm task queued).1.db.outbox
        ≡ set_task_rows calm 7 done 0 none (some 100) (task ∷ []))
unfolding process_single_task Publisher.send_message World.◌>>=◌ World.next_signal
    Publisher.after_success World.now World.map_error Outbox.update_task_status Postgres.exec
    Outbox.update_task Outbox.find_task
process_single_task-done_example = process_single_task-done calm task queued refl

-- The context is done before the message is out.
abbrev cut_off : Env
cut_off = record calm { signal = λ n. cancelled }

process_single_task-ends_example :
    (((process_single_task cut_off task queued).0 ≢ ok tt)
      × ((process_single_task cut_off task queued).1.sent ≡ [])
      × ((process_single_task cut_off task queued).1.db ≡ queued.db))
    ⊎ (((process_single_task cut_off task queued).1.sent ≡ message_of cut_off task ∷ [])
        × (((process_single_task cut_off task queued).1.db.outbox ≡ task ∷ [])
            ⊎ ((process_single_task cut_off task queued).1.db.outbox
                ≡ set_task_rows cut_off 7 done 0 none (some 100) (task ∷ []))))
process_single_task-ends_example = process_single_task-ends cut_off task queued

abbrev config : PublisherConfig
config = record { batch_size = 10; max_attempts = 5 }

process_batch-stranded_example :
    All (λ t. IsMarked t.id (process_batch stopping config queued).1.db.outbox) (task ∷ [])
    × ((process_batch stopping config queued).1.sent ≡ (claim stopping 10 queued).1.sent)
unfolding claim World.◌>>=◌ World.map_error Postgres.begin_tx Publisher.claim_body
    Outbox.get_processable_tasks Postgres.query Publisher.mark_tasks processable_rows sort_by keep
    Outbox.update_task_status_tx Postgres.exec Outbox.update_task Outbox.find_task Postgres.commit
process_batch-stranded_example =
    process_batch-stranded stopping config queued {ts = task ∷ []} refl (λ e. cc)

-- The task was left in the middle, and a new one has come.
abbrev left : World
left = record two {
  db = record tables { outbox = record task { status = processing } ∷ record task { id = 8 } ∷ [] };
}

run-Stuck_example : Stuck 7 (run calm config 3 left).db.outbox
run-Stuck_example = run-Stuck calm 7 config 3 left (inr refl, (inl (λ e. ground (arith, e)), tt))
