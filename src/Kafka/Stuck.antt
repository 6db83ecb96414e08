-- ===== src/Kafka/Stuck.antt =====
-- Rows of the outbox that are PROCESSING, under the selection and the updates of the publisher.
use ozon_final.Base.{
  ℕ, ◌+◌, String, ◌≡◌, ◌≢◌, refl, sym, ◌∙◌, ◌⊎◌, inl, inr, Bool, true, false, Option, none, some,
  List, [], ◌∷◌, All, if◌then◌else◌, keep, arith,
}
use mathlib.Core.Path.{subst}
use ozon_final.Base.Sorting.Items.{All-sort_by, All-take}
use ozon_final.Errors.{Error, text, Result, ok, err}
use ozon_final.Repository.{OutboxTask, TaskStatus, processing, done}
use ozon_final.World.{
  Env, World, Message, Signal, quiet, shutdown, cancelled, ◌>>=◌, map_error, now, next_signal,
}
use ozon_final.Postgres.{exec}
use ozon_final.Postgres.Outbox.{
  is_task, set_task, set_task_rows, update_task, update_task_status, update_task_status_internal,
  processable_rows, is_processable,
}
use ozon_final.Kafka.Publisher.{
  process_single_task, send_message, message_of, after_send, context_canceled, after_success,
  after_failure, send_tasks,
}

-- Every row with the id is PROCESSING.
abbrev pub Stuck : ℕ → List OutboxTask → Type 0
Stuck j = All (λ t. (t.id ≢ j) ⊎ (t.status ≡ processing))

module _ (env : Env) (j : ℕ) where
  -- An update of another row, or one that marks.
  pub set_task_rows-Stuck :
      (id : ℕ) (s : TaskStatus) (n : ℕ) (e : Option String) (c : Option ℕ) (ts : List OutboxTask)
      → (id ≢ j) ⊎ (s ≡ processing)
      → Stuck j ts
      → Stuck j (set_task_rows env id s n e c ts)
  unfolding set_task_rows
  set_task_rows-Stuck id s n e c [] k h = tt
  set_task_rows-Stuck id s n e c (t ∷ ts) k h =
      (by_test (is_task id t) refl h.0, set_task_rows-Stuck id s n e c ts k h.1)
    where
      marked : t.id ≡ id → (id ≢ j) ⊎ (s ≡ processing) → (t.id ≢ j) ⊎ (s ≡ processing)
      marked same (inl other) = inl (λ x. other (sym same ∙ x))
      marked same (inr p) = inr p

      by_test :
          (b : Bool)
          → is_task id t ≡ b
          → (t.id ≢ j) ⊎ (t.status ≡ processing)
          → ((if b then set_task env s n e c t else t).id ≢ j)
            ⊎ ((if b then set_task env s n e c t else t).status ≡ processing)
      by_test true same old = marked (ground (arith, same)) k
      by_test false same old = old

  kept-other : (ts : List OutboxTask) → Stuck j ts → All (λ t. t.id ≢ j) (keep is_processable ts)
  unfolding keep
  kept-other [] h = tt
  kept-other (t ∷ ts) h = by_test (is_processable t) refl (kept-other ts h.1) h.0
    where
      by_test :
          (b : Bool)
          → is_processable t ≡ b
          → All (λ t. t.id ≢ j) (keep is_processable ts)
          → (t.id ≢ j) ⊎ (t.status ≡ processing)
          → All (λ t. t.id ≢ j) (if b then t ∷ keep is_processable ts else keep is_processable ts)
      by_test true e rest (inl other) = (other, rest)
      by_test true e rest (inr p) = ground (arith, e, p)
      by_test false e rest old = rest

  -- The selection leaves it out.
  pub selected-other :
      (limit : ℕ) (ts : List OutboxTask)
      → Stuck j ts
      → All (λ t. t.id ≢ j) (processable_rows env limit ts)
  unfolding processable_rows
  selected-other limit ts h = All-take _ limit _ (All-sort_by (λ t. t.id ≢ j) _ _ (kept-other ts h))

  -- The rows after an update, however it ends.
  update-rows :
      (id : ℕ) (s : TaskStatus) (n : ℕ) (e : Option String) (c : Option ℕ) (w : World)
      → ((update_task_status env id s n e c w).1.db.outbox ≡ w.db.outbox)
        ⊎ ((update_task_status env id s n e c w).1.db.outbox
            ≡ set_task_rows env id s n e c w.db.outbox)
  unfolding update_task_status update_task_status_internal exec update_task ◌>>=◌ map_error
  update-rows id s n e c w = ground arith

  update-Stuck :
      (id : ℕ) (s : TaskStatus) (n : ℕ) (e : Option String) (c : Option ℕ) (w : World)
      → id ≢ j
      → Stuck j w.db.outbox
      → Stuck j (update_task_status env id s n e c w).1.db.outbox
  update-Stuck id s n e c w k h = elim (update-rows id s n e c w) [
    | inl same ↦ subst (Stuck j) (sym same) h
    | inr set ↦ subst (Stuck j) (sym set) (set_task_rows-Stuck id s n e c w.db.outbox (inl k) h)
  ]

  db-send_message : (m : Message) (w : World) → (send_message env m w).1.db ≡ w.db
  unfolding send_message ◌>>=◌ next_signal
  db-send_message m w = ground arith

  db-after_success :
      (task : OutboxTask) (w : World)
      → (after_success env task w).1.db
        ≡ (update_task_status env task.id done task.attempts none
            (some (env.clock w.readings))
            (record w { readings = w.readings + 1 })).1.db
  unfolding after_success ◌>>=◌ map_error now
  db-after_success task w = refl

  db-after_failure :
      (task : OutboxTask) (e : Error) (w : World) → (after_failure env task e w).1.db ≡ w.db
  unfolding after_failure update_task_status update_task_status_internal exec ◌>>=◌ map_error
  db-after_failure task e w = refl

  after_send-Stuck :
      (task : OutboxTask) (r : Result (Unit {0}) × World)
      → task.id ≢ j
      → Stuck j r.1.db.outbox
      → Stuck j (after_send env task r).1.db.outbox
  after_send-Stuck task (ok _, w) k h =
      subst (λ t. Stuck j t.outbox) (sym (db-after_success task w))
        (update-Stuck task.id done task.attempts none (some (env.clock w.readings)) _ k h)
  after_send-Stuck task (err e, w) k h =
      subst (λ t. Stuck j t.outbox) (sym (db-after_failure task e w)) h

  single-Stuck :
      (task : OutboxTask) (w : World)
      → task.id ≢ j
      → Stuck j w.db.outbox
      → Stuck j (process_single_task env task w).1.db.outbox
  unfolding process_single_task
  single-Stuck task w k h =
      after_send-Stuck task (send_message env (message_of env task) w) k
        (subst (λ t. Stuck j t.outbox) (sym (db-send_message (message_of env task) w)) h)

  -- The second loop, on other tasks.
  pub send_tasks-Stuck :
      (ts : List OutboxTask) (w : World)
      → All (λ t. t.id ≢ j) ts
      → Stuck j w.db.outbox
      → Stuck j (send_tasks env ts w).1.db.outbox
  unfolding send_tasks
  send_tasks-Stuck [] w k h = h
  send_tasks-Stuck (t ∷ ts) w k h =
      let w' : World = record w { selects = w.selects + 1 } in
      by_signal (env.signal w.selects)
        (send_tasks-Stuck ts (process_single_task env t w').1 k.1 (single-Stuck t w' k.0 h))
    where
      by_signal :
          (s : Signal)
          → Stuck j
              (send_tasks env ts
                (process_single_task env t (record w { selects = w.selects + 1 })).1).1.db.outbox
          → Stuck j
              (elim s as (λ _. Result (Unit {0}) × World) [
                | quiet ↦
                    send_tasks env ts
                      (process_single_task env t (record w { selects = w.selects + 1 })).1
                | shutdown ↦ (
                  err (text "publisher shutdown during batch processing"),
                  record w { selects = w.selects + 1 },
                )
                | cancelled ↦ (err context_canceled, record w { selects = w.selects + 1 })
              ]).1.db.outbox
      by_signal quiet rest = rest
      by_signal shutdown rest = h
      by_signal cancelled rest = h
