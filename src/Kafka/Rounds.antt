-- ===== src/Kafka/Rounds.antt =====
-- Tasks that are PROCESSING, through a batch of `processBatch` and the rounds of `Run`.
use ozon_final.Base.{
  ℕ, zero, suc, ◌+◌, ◌≡◌, ◌≢◌, refl, sym, ◌⊎◌, inl, inr, Bool, true, false, none, List, [], ◌∷◌,
  All, if◌then◌else◌, arith,
}
use mathlib.Core.Path.{subst}
use ozon_final.Errors.{Error, wrap, Result, ok, err}
use ozon_final.Repository.{OutboxTask, processing}
use ozon_final.World.{
  Env, World, Signal, quiet, shutdown, cancelled, Answer, served, refused, lost, negative_window,
  called, pure, continue, mapped, ◌>>=◌, map_error,
}
use ozon_final.Postgres
use ozon_final.Postgres.{exec, query, answered, violated, begun, begin_tx, commit, rollback}
use ozon_final.Postgres.Orders.{is_negative}
use ozon_final.Postgres.Outbox.{
  set_task_rows, update_task, update_task_status_tx, update_task_status_internal, processable_rows,
  get_processable_tasks,
}
use ozon_final.Kafka.Publisher.{
  PublisherConfig, mark_tasks, or_rollback, claim_body, claim, send_tasks, process_batch, run,
}
use ozon_final.Kafka.Marked.{resume}
use ozon_final.Kafka.Stuck.{Stuck, set_task_rows-Stuck, selected-other, send_tasks-Stuck}

module _ (env : Env) (j : ℕ) where
  abbrev Both : World → Type 0
  Both w = Stuck j w.db.outbox × Stuck j w.work.outbox

  -- Marking a task writes the working copy only.
  update_tx-rows :
      (id n : ℕ) (w : World)
      → ((update_task_status_tx env id processing n none none w).1.db ≡ w.db)
        × (((update_task_status_tx env id processing n none none w).1.work.outbox ≡ w.work.outbox)
            ⊎ ((update_task_status_tx env id processing n none none w).1.work.outbox
                ≡ set_task_rows env id processing n none none w.work.outbox))
  unfolding update_task_status_tx update_task_status_internal exec update_task ◌>>=◌ map_error
  update_tx-rows id n w = ground arith

  update_tx-Both :
      (id n : ℕ) (w : World)
      → Both w
      → Both (update_task_status_tx env id processing n none none w).1
  update_tx-Both id n w h = (
    subst (λ t. Stuck j t.outbox) (sym (update_tx-rows id n w).0) h.0,
    elim (update_tx-rows id n w).1 [
      | inl same ↦ subst (Stuck j) (sym same) h.1
      | inr set ↦
          subst (Stuck j) (sym set)
            (set_task_rows-Stuck env j id processing n none none w.work.outbox (inr refl) h.1)
    ],
  )

  mark_tasks-Both : (ts : List OutboxTask) (w : World) → Both w → Both (mark_tasks env ts w).1
  unfolding mark_tasks
  mark_tasks-Both [] w h = h
  mark_tasks-Both (t ∷ ts) w h =
      next (update_task_status_tx env t.id processing t.attempts none none w)
        (update_tx-Both t.id t.attempts w h) (mark_tasks-Both ts)
    where
      next :
          (r : Result (Unit {0}) × World)
          → Both r.1
          → ((w' : World) → Both w' → Both (mark_tasks env ts w').1)
          → Both (resume env t ts r).1
      next (ok _, w') k rest = rest w' k
      next (err e, w') k rest = k

  -- The tasks of a batch are other ones.
  abbrev Selected : Result (List OutboxTask) × World → Type 0
  Selected (ok ts, w) = All (λ t. t.id ≢ j) ts × Both w
  Selected (err e, w) = Both w

  get_processable_tasks-Selected :
      (n : ℕ) (w : World)
      → Both w
      → Selected
          (map_error (wrap "failed to get processable tasks") (get_processable_tasks env n) w)
  unfolding get_processable_tasks query map_error
  get_processable_tasks-Selected n w h = by_answer (env.answer w.calls) (is_negative n)
    where
      rows : Bool → Result (List OutboxTask)
      rows b = if b then violated env negative_window else ok (processable_rows env n w.db.outbox)

      by_answer :
          (a : Answer) (b : Bool)
          → Selected (
            mapped (wrap "failed to get processable tasks") (
                mapped
                  (wrap "failed to get processable outbox tasks")
                  (answered a (rows b) (called w)).0),
            (answered a (rows b) (called w)).1,
          )
      by_answer served true = h
      by_answer served false = (selected-other env j n w.db.outbox h.0, h)
      by_answer (refused m) b = h
      by_answer (lost m) b = h

  marked-Selected :
      (ts : List OutboxTask) (r : Result (Unit {0}) × World)
      → All (λ t. t.id ≢ j) ts
      → Both r.1
      → Selected (continue r.0 (λ _. pure ts) r.1)
  marked-Selected ts (ok _, w) k h = (k, h)
  marked-Selected ts (err e, w) k h = h

  after_select :
      (r : Result (List OutboxTask) × World)
      → Selected r
      → Selected (continue r.0 (λ ts. mark_tasks env ts >>= λ _. pure ts) r.1)
  unfolding ◌>>=◌
  after_select (ok ts, w) h =
      marked-Selected ts (mark_tasks env ts w) h.0 (mark_tasks-Both ts w h.1)
  after_select (err e, w) h = h

  claim_body-Selected : (n : ℕ) (w : World) → Both w → Selected (claim_body env n w)
  unfolding claim_body ◌>>=◌
  claim_body-Selected n w h = after_select _ (get_processable_tasks-Selected n w h)

  -- The same of what is committed.
  abbrev Safe : Result (List OutboxTask) × World → Type 0
  Safe (ok ts, w) = All (λ t. t.id ≢ j) ts × Stuck j w.db.outbox
  Safe (err e, w) = Stuck j w.db.outbox

  committed-Safe :
      (f : Error → Error) (ts : List OutboxTask) (a : Answer) (w : World)
      → All (λ t. t.id ≢ j) ts
      → Both w
      → Safe (
          continue
            (mapped f (Postgres.committed env a w).0)
            (λ _. pure ts)
            (Postgres.committed env a w).1)
  committed-Safe f ts served w k h = (k, h.1)
  committed-Safe f ts (refused m) w k h = h.0
  committed-Safe f ts (lost m) w k h = h.1

  after_body :
      (f : List OutboxTask → Error → Error) (r : Result (List OutboxTask) × World)
      → Selected r
      → Safe (
          continue
            (or_rollback env r).0
            (λ ts. map_error (f ts) (commit env) >>= λ _. pure ts)
            (or_rollback env r).1)
  unfolding ◌>>=◌ map_error commit rollback
  after_body f (ok ts, w) h = committed-Safe (f ts) ts (env.answer w.calls) (called w) h.0 h.1
  after_body f (err e, w) h = by_answer (env.answer w.calls)
    where
      by_answer : (a : Answer) → Stuck j (answered a (ok (tt {0})) (called w)).1.db.outbox
      by_answer served = h.0
      by_answer (refused m) = h.0
      by_answer (lost m) = h.0

  after_begin :
      (n : ℕ) (g : Error → Error) (f : List OutboxTask → Error → Error) (a : Answer) (w : World)
      → Stuck j w.db.outbox
      → Safe (
          continue
            (mapped g (begun env a w).0)
            (λ _. (λ w. or_rollback env (claim_body env n w)) >>= λ ts.
              map_error (f ts) (commit env) >>= λ _. pure ts)
            (begun env a w).1)
  unfolding ◌>>=◌
  after_begin n g f served w h =
      after_body f (claim_body env n (record w { work = w.db }))
        (claim_body-Selected n (record w { work = w.db }) (h, h))
  after_begin n g f (refused m) w h = h
  after_begin n g f (lost m) w h = h

  claim-Safe : (n : ℕ) (w : World) → Stuck j w.db.outbox → Safe (claim env n w)
  unfolding claim ◌>>=◌ map_error begin_tx
  claim-Safe n w h = after_begin n _ _ (env.answer w.calls) (called w) h

  sent-Stuck :
      (r : Result (List OutboxTask) × World)
      → Safe r
      → Stuck j (continue r.0 (send_tasks env) r.1).1.db.outbox
  sent-Stuck (ok ts, w) h = send_tasks-Stuck env j ts w h.0 h.1
  sent-Stuck (err e, w) h = h

  process_batch-Stuck :
      (config : PublisherConfig) (w : World)
      → Stuck j w.db.outbox
      → Stuck j (process_batch env config w).1.db.outbox
  unfolding process_batch ◌>>=◌
  process_batch-Stuck config w h =
      sent-Stuck (claim env config.batch_size w) (claim-Safe config.batch_size w h)

  -- If every row of the outbox with an id is PROCESSING, that is still so after any number of rounds of
  -- the publisher, whatever the database answers and whatever signals it finds.
  pub run-Stuck :
      (config : PublisherConfig) (n : ℕ) (w : World)
      → Stuck j w.db.outbox
      → Stuck j (run env config n w).db.outbox
  unfolding run
  run-Stuck config zero w h = h
  run-Stuck config (suc n) w h =
      let w' : World = record w { selects = w.selects + 1 } in
      by_signal (env.signal w.selects)
        (run-Stuck config n (process_batch env config w').1 (process_batch-Stuck config w' h))
    where
      by_signal :
          (s : Signal)
          → Stuck j
              (run env config n
                (process_batch env config (record w { selects = w.selects + 1 })).1).db.outbox
          → Stuck j
              (elim s as (λ _. World) [
                | quiet ↦
                    run env config n
                      (process_batch env config (record w { selects = w.selects + 1 })).1
                | shutdown ↦ record w { selects = w.selects + 1 }
                | cancelled ↦ record w { selects = w.selects + 1 }
              ]).db.outbox
      by_signal quiet rest = rest
      by_signal shutdown rest = h
      by_signal cancelled rest = h
