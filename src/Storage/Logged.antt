-- ===== src/Storage/Logged.antt =====
-- The transactional outbox: the audit task of a method, statement by statement.
use ozon_final.Base.{◌+◌, String, ◌≡◌, refl, sym, ap, Option, List, [], ◌∷◌, ◌++◌}
use mathlib.Core.Path.{subst}
use ozon_final.Base.Dict.{Dict}
use ozon_final.Repository
use ozon_final.Repository.{OutboxTask, AuditLogPayload, HistoryEntry, ReturnEntry, new_task}
use ozon_final.World.{Env, Tables, ◌>>=◌, now}
use ozon_final.Postgres.Ensures.{
  Ensures, Ensures-map_error, Ensures-bind, Ensures-now, Ensures-new_id, Ensures-exec,
  StatementPost-map,
}
use ozon_final.Postgres.Done.{
  insert_order-done, update_order-done, insert_history-done, insert_return-done, insert_task-done,
}
use ozon_final.Postgres.Orders.{create_tx, update_tx}
use ozon_final.Postgres.Returns.{create_history_tx, create_return_tx}
use ozon_final.Postgres.Outbox.{create_task_tx, task_row}
use ozon_final.Storage.{detail, create_audit_payload}
use ozon_final.Storage.Orders.{create_audit_task}

-- One new task at the end, which says what was done to which order, and two statuses.
pub record Logged (base : List OutboxTask) (action id old new : String) (t : Tables) : Type 0 where
  pub task : OutboxTask
  pub appended : t.outbox ≡ base ++ task ∷ []
  pub is_new : task.status ≡ Repository.created
  pub topic : task.topic ≡ "audit_logs"
  pub action_is : task.payload.action ≡ action
  pub entity_is : (task.payload.entity_type ≡ "order") × (task.payload.entity_id ≡ id)
  pub statuses : (task.payload.old_status ≡ old) × (task.payload.new_status ≡ new)

module _ (env : Env) (base : List OutboxTask) where
  abbrev pub Unlogged : Tables → Type 0
  Unlogged t = t.outbox ≡ base

  create_task_tx-Logged :
      (p : AuditLogPayload) (id : String)
      → (p.entity_type ≡ "order") × (p.entity_id ≡ id)
      → Ensures Unlogged
          (create_task_tx env (new_task "audit_logs" p))
          (λ _. Logged base p.action id p.old_status p.new_status)
  unfolding create_task_tx
  create_task_tx-Logged p id e =
      let after : Tables → Type 0 = Logged base p.action id p.old_status p.new_status in
      Ensures-bind Unlogged (λ _. Unlogged) (λ _. after) _ _ (Ensures-new_id Unlogged env)
        λ key.
          Ensures-bind Unlogged (λ _. Unlogged) (λ _. after) _ _ (Ensures-now Unlogged env)
            λ at.
              Ensures-map_error Unlogged (λ _. after) _ _
                (Ensures-exec Unlogged _ env _ λ n t h.
                  StatementPost-map _ _ (insert_task-done env n t key at (new_task "audit_logs" p))
                    λ _ t' d. subst after (sym d) (record {
                      task = task_row env key at (new_task "audit_logs" p);
                      appended =
                          ap (λ ts. ts ++ task_row env key at (new_task "audit_logs" p) ∷ []) h;
                      is_new = refl;
                      topic = refl;
                      action_is = refl;
                      entity_is = e;
                      statuses = (refl, refl);
                    }))

  -- `createAuditPayload` takes the old status from "old_status" and the new one from "status".
  pub create_audit_task-Logged :
      (pre action id : String) (details : Option (Dict String))
      → Ensures Unlogged
          (create_audit_task env pre action id details)
          (λ _. Logged base action id (detail "old_status" details) (detail "status" details))
  unfolding create_audit_task create_audit_payload ◌>>=◌ now
  create_audit_task-Logged pre action id details = record {
    at = λ w h.
        (Ensures-map_error Unlogged
            (λ _. Logged base action id (detail "old_status" details) (detail "status" details)) _ _
            (create_task_tx-Logged _ id (refl, refl))).at
          (record w { readings = w.readings + 1 }) h;
  }

  pub create_history_tx-Unlogged :
      (h : HistoryEntry) → Ensures Unlogged (create_history_tx env h) (λ _. Unlogged)
  unfolding create_history_tx
  create_history_tx-Unlogged e = Ensures-exec Unlogged _ env _ λ n t h.
      StatementPost-map _ _ (insert_history-done env n t e) λ _ t' d. subst Unlogged (sym d) h

  pub create_return_tx-Unlogged :
      (r : ReturnEntry) → Ensures Unlogged (create_return_tx env r) (λ _. Unlogged)
  unfolding create_return_tx
  create_return_tx-Unlogged r = Ensures-exec Unlogged _ env _ λ n t h.
      StatementPost-map _ _ (insert_return-done env n t r) λ _ t' d. subst Unlogged (sym d) h

  pub update_tx-Unlogged :
      (o : Repository.Order) → Ensures Unlogged (update_tx env o) (λ _. Unlogged)
  unfolding update_tx
  update_tx-Unlogged o = Ensures-exec Unlogged _ env _ λ n t h.
      StatementPost-map _ _ (update_order-done env n t o) λ _ t' d. subst Unlogged (sym d) h

  pub create_tx-Unlogged :
      (o : Repository.Order) → Ensures Unlogged (create_tx env o) (λ _. Unlogged)
  unfolding create_tx
  create_tx-Unlogged o = Ensures-exec Unlogged _ env _ λ n t h.
      StatementPost-map _ _ (insert_order-done env n t o) λ _ t' d. subst Unlogged (sym d.1) h
