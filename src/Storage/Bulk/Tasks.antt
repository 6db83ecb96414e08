-- ===== src/Storage/Bulk/Tasks.antt =====
-- The audit tasks that a bulk method collects and puts into the outbox.
use ozon_final.Base.{ℕ, String, ◌≡◌, refl, sym, ap, ◌∙◌, List, [], ◌∷◌, ◌++◌, eqb, arith}
use mathlib.Core.Path.{subst}
use mathlib.Core.List.{append_assoc, append-nil}
use ozon_final.Errors.{Result, ok, err, wrap}
use ozon_final.Repository
use ozon_final.Repository.{OutboxTask, new_task, new_history, new_return}
use ozon_final.World
use ozon_final.World.{Env, Tables, World, Answer, served, refused, lost, called}
use ozon_final.Postgres.Ensures.{
  Ensures, Post, Ensures-map_error, Ensures-bind, Ensures-now, Ensures-new_id, Ensures-exec,
  Ensures-if, Ensures-pure, StatementPost-map,
}
use ozon_final.Postgres.Done.{insert_task-done}
use ozon_final.Postgres.Orders.{get_by_id_tx}
use ozon_final.Postgres.Returns.{create_history_tx}
use ozon_final.Postgres.Outbox.{create_task_tx, task_row}
use ozon_final.Storage.{create_audit_payload}
use ozon_final.Storage.Bulk.{
  BulkResult, Outcome, passed, skipped, broken, Attempt, ◌>>=◌, attempt, fetch, finish, Batch,
  add_success, add_failure, insert_tasks, payload_of, check_issue, check_accept, issue_one,
  accept_one,
}
use ozon_final.Storage.Bulk.Ensures.{
  AttemptEnsures, OutcomePost, AttemptEnsures-attempt, AttemptEnsures-fetch, AttemptEnsures-bind,
  StepKeeps,
}
use ozon_final.Storage.Logged.{
  Unlogged, create_history_tx-Unlogged, create_return_tx-Unlogged, update_tx-Unlogged,
}
use ozon_final.Storage.History.Batches.{work-get_by_id_tx}
use ozon_final.Storage.Bulk.Labels.{label, labels, expected, labels-append, expected-append}

module _ (env : Env) (base : List OutboxTask) where
  abbrev Before : Tables → Type 0
  Before = Unlogged env base

  -- One statement of the last loop.
  create_task_tx-Added :
      (task : OutboxTask)
      → Ensures Before
          (create_task_tx env task)
          (λ _ t. (row : OutboxTask) × ((t.outbox ≡ base ++ row ∷ []) × (label row ≡ label task)))
  unfolding create_task_tx
  create_task_tx-Added task =
      let after : Tables → Type 0 =
        λ t. (row : OutboxTask) × ((t.outbox ≡ base ++ row ∷ []) × (label row ≡ label task)) in
      Ensures-bind Before (λ _. Before) (λ _. after) _ _
        (Ensures-if Before (λ _. Before) (eqb task.id 0) _ _ (λ e. Ensures-new_id Before env)
          (λ e. Ensures-pure Before (λ _. Before) task.id (λ t h. h)))
        λ key.
          Ensures-bind Before (λ _. Before) (λ _. after) _ _ (Ensures-now Before env)
            λ at.
              Ensures-map_error Before (λ _. after) _ _
                (Ensures-exec Before _ env _ λ n t h.
                  StatementPost-map _ _ (insert_task-done env n t key at task) λ _ t' d.
                    subst after (sym d) (
                      task_row env key at task,
                      (ap (λ ts. ts ++ task_row env key at task ∷ []) h, refl),
                    ))

  -- What the two steps give for the last loop.
  abbrev pub Gives : String → String → {V : Type 0} → V × OutboxTask → Tables → Type 0
  Gives action id r t = Before t × (label r.1 ≡ (action, id))

  module _ {V : Type 0} (action id : String) where
    payload-Gives :
        (user old status : String) (v : V)
        → AttemptEnsures {A = V × OutboxTask} Before
            (payload_of env action id user old status >>= λ payload.
              finish (v, new_task "audit_logs" payload))
            (Gives action id)
            Before
    unfolding payload_of create_audit_payload ◌>>=◌ World.◌>>=◌ World.now
    payload-Gives user old status v = record { at = λ w h. (h, refl) }

    record_history-Gives :
        (reason pre status user old : String) (at : ℕ) (v : V)
        → AttemptEnsures {A = V × OutboxTask} Before
            (attempt reason pre (create_history_tx env (new_history id status at)) >>= λ _.
              payload_of env action id user old status >>= λ payload.
              finish (v, new_task "audit_logs" payload))
            (Gives action id)
            Before
    record_history-Gives reason pre status user old at v =
        AttemptEnsures-bind Before (λ _. Before) (Gives action id) Before _ _
          (AttemptEnsures-attempt Before (λ _. Before) Before _ _ _
            (create_history_tx-Unlogged env base _))
          λ _. payload-Gives user old status v

  get_by_id_tx-Before : (id : String) → Ensures Before (get_by_id_tx env id) (λ _. Before)
  get_by_id_tx-Before id = record {
    at = λ w h.
        by_result (get_by_id_tx env id w) (subst Before (sym (work-get_by_id_tx env id w)) h);
  }
    where
      by_result : (r : Result Repository.Order × World) → Before r.1.work → Post (λ _. Before) r
      by_result (ok o, w) h = h
      by_result (err e, w) h = tt

  fetch-Before :
      (pre id : String)
      → AttemptEnsures Before (fetch pre (get_by_id_tx env id)) (λ _. Before) Before
  fetch-Before pre id =
      AttemptEnsures-fetch Before (λ _. Before) Before pre _
        (λ w h _ _ _. subst Before (sym (work-get_by_id_tx env id w)) h) (get_by_id_tx-Before id)

  pub issue_one-Gives :
      (user : String) (at : ℕ) (id : String)
      → AttemptEnsures Before (issue_one env user at id) (Gives "ORDER_ISSUED" id) Before
  unfolding issue_one check_issue
  issue_one-Gives user at id =
      AttemptEnsures-bind Before (λ _. Before) (Gives "ORDER_ISSUED" id) Before _ _
        (fetch-Before _ id)
        λ o.
          AttemptEnsures-bind Before (λ _. Before) (Gives "ORDER_ISSUED" id) Before _ _
            (record { at = λ w h. ground (arith, h) })
            λ _.
              AttemptEnsures-bind Before (λ _. Before) (Gives "ORDER_ISSUED" id) Before _ _
                (AttemptEnsures-attempt Before (λ _. Before) Before _ _ _
                  (update_tx-Unlogged env base _))
                λ _. record_history-Gives "ORDER_ISSUED" id _ _ "issued" user o.status at _

  pub accept_one-Gives :
      (user : String) (at : ℕ) (id : String)
      → AttemptEnsures Before (accept_one env user at id) (Gives "ORDER_RETURN_ACCEPTED" id) Before
  unfolding accept_one check_accept
  accept_one-Gives user at id =
      let gives : Unit {0} × OutboxTask → Tables → Type 0 = Gives "ORDER_RETURN_ACCEPTED" id in
      AttemptEnsures-bind Before (λ _. Before) gives Before _ _ (fetch-Before _ id)
        λ o.
          AttemptEnsures-bind Before (λ _. Before) gives Before _ _
            (record { at = λ w h. ground (arith, h) })
            λ _.
              AttemptEnsures-bind Before (λ _. Before) gives Before _ _
                (AttemptEnsures-attempt Before (λ _. Before) Before _ _ _
                  (create_return_tx-Unlogged env base _))
                λ _.
                  AttemptEnsures-bind Before (λ _. Before) gives Before _ _
                    (AttemptEnsures-attempt Before (λ _. Before) Before _ _ _
                      (update_tx-Unlogged env base _))
                    λ _.
                      record_history-Gives "ORDER_RETURN_ACCEPTED" id _ _ "returned" user o.status
                        at tt

  -- The loop has put nothing into the outbox yet, and has one task for each success.
  abbrev pub Waiting : String → {V : Type 0} → Batch V → Tables → Type 0
  Waiting action b t = Before t × (labels b.tasks ≡ expected action b.results)

  module _ {V : Type 0} (action : String) (one : String → Attempt (V × OutboxTask))
      (gives : (id : String) → AttemptEnsures Before (one id) (Gives action id) Before) where
    pub one-StepKeeps : StepKeeps (Waiting action) one
    one-StepKeeps id b = record { at = λ w h. by_outcome (one id w) h.1 ((gives id).at w h.0) }
      where
        grown :
            (r : BulkResult) (ls : List (String × String))
            → labels b.tasks ≡ expected action b.results
            → ls ≡ expected action (r ∷ [])
            → labels b.tasks ++ ls ≡ expected action (b.results ++ r ∷ [])
        grown r ls same e =
            ap (λ l. l ++ ls) same
            ∙ (ap (λ l. expected action b.results ++ l) e
                ∙ sym (expected-append action b.results r))

        by_outcome :
            (r : Outcome (V × OutboxTask) × World)
            → labels b.tasks ≡ expected action b.results
            → OutcomePost (Gives action id) Before r
            → OutcomePost
                (λ p. Waiting action (add_success id p b))
                (λ t. (reason : String) → Waiting action (add_failure id reason b) t)
                r
        by_outcome (passed p, w) same h =
            (h.0, labels-append b.tasks p.1 ∙ grown _ _ same (ap (λ l. l ∷ []) h.1))
        by_outcome (skipped r, w) same h =
            λ reason. (h, sym (append-nil (labels b.tasks)) ∙ grown _ [] same refl)
        by_outcome (broken r e, w) same h = tt

-- The last loop puts the tasks into the outbox one by one.
module _ (env : Env) where
  abbrev pub Added : List (String × String) → List OutboxTask → Tables → Type 0
  Added ls base t = (new : List OutboxTask) × ((t.outbox ≡ base ++ new) × (labels new ≡ ls))

  pub insert_tasks-Added :
      (pre : String) (ts : List OutboxTask) (base : List OutboxTask) (w : World)
      → w.work.outbox ≡ base
      → Post (λ _. Added (labels ts) base) (insert_tasks env pre ts w)
  unfolding insert_tasks
  insert_tasks-Added pre [] base w h = ([], (h ∙ sym (append-nil base), refl))
  insert_tasks-Added pre (t ∷ ts) base w h =
      by_result (create_task_tx env t w) ((create_task_tx-Added env base t).at w h)
        (λ base' w' h'. insert_tasks-Added pre ts base' w' h')
    where
      added :
          (row : OutboxTask)
          → label row ≡ label t
          → (r : Result (Unit {0}) × World) → Post (λ _. Added (labels ts) (base ++ row ∷ [])) r
          → Post (λ _. Added (label t ∷ labels ts) base) r
      added row same (ok _, w) (new, (e, ls)) = (
        row ∷ new,
        (
          e ∙ append_assoc base (row ∷ []) new,
          ap (λ l. l ∷ labels new) same ∙ ap (λ l. label t ∷ l) ls,
        ),
      )
      added row same (err e, w) h = tt

      by_result :
          (r : Result (Unit {0}) × World)
          → Post
              (λ _ t'.
                (row : OutboxTask) × ((t'.outbox ≡ base ++ row ∷ []) × (label row ≡ label t)))
              r
          → ((base' : List OutboxTask) (w' : World)
              → w'.work.outbox ≡ base'
              → Post (λ _. Added (labels ts) base') (insert_tasks env pre ts w'))
          → Post
              (λ _. Added (label t ∷ labels ts) base)
              (elim r.0 as (λ _. Result (Unit {0}) × World) [
                | ok _ ↦ insert_tasks env pre ts r.1
                | err e ↦ (err (wrap pre e), r.1)
              ])
      by_result (ok _, w') (row, (e, same)) rest =
          added row same (insert_tasks env pre ts w') (rest (base ++ row ∷ []) w' e)
      by_result (err e, w') h rest = tt
