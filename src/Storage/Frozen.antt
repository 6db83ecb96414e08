-- ===== src/Storage/Frozen.antt =====
-- The committed tables and the cache while the body of a storage method runs, before the deferred
-- function.
use ozon_final.Base.{ℕ, String, ◌≡◌, Option, arith}
use ozon_final.Base.Dict.{Dict}
use ozon_final.Repository
use ozon_final.World.{Env, World, map_error}
use ozon_final.Errors.{ok}
use ozon_final.Postgres.{begin_tx}
use ozon_final.World.Keeps.{Keeps, keeps_rules}
use ozon_final.Postgres.Frozen.{
  Frozen, Frozen-now, Frozen-begin_tx, Frozen-create_tx, Frozen-update_tx, Frozen-delete_tx,
  Frozen-create_return_tx, Frozen-create_history_tx, Frozen-get_by_id_tx, Frozen-create_task_tx,
}
use ozon_final.Storage.{Order, Return, create_audit_payload}
use ozon_final.Storage.Orders.{
  begin_wrapped, create_audit_task, add_order_body, change_status, update_status_body,
  delete_order_body, check_return, record_return, add_return_body,
}
use ozon_final.Storage.Bulk.{payload_of, check_issue, issue_one, check_accept, accept_one}
use ozon_final.Storage.Bulk.Keeps.{AttemptKeeps, attempt_rules}

ruleset frozen_rules = (
  keeps_rules, Frozen-now, Frozen-create_tx, Frozen-update_tx, Frozen-delete_tx,
  Frozen-create_return_tx, Frozen-create_history_tx, Frozen-get_by_id_tx, Frozen-create_task_tx,
)

module _ {w₀ : World} (env : Env) where
  pub Frozen-create_audit_payload :
      (action entity id : String) (details : Option (Dict String))
      → Keeps (Frozen w₀) (create_audit_payload env action entity id details)
  unfolding create_audit_payload
  Frozen-create_audit_payload action entity id details = search frozen_rules

  pub Frozen-create_audit_task :
      (pre action id : String) (details : Option (Dict String))
      → Keeps (Frozen w₀) (create_audit_task env pre action id details)
  unfolding create_audit_task
  Frozen-create_audit_task pre action id details =
      search (frozen_rules, Frozen-create_audit_payload)

  pub Frozen-add_order_body : (o : Order) → Keeps (Frozen w₀) (add_order_body env o)
  unfolding add_order_body
  Frozen-add_order_body o = search (frozen_rules, Frozen-create_audit_task) depth 12

  pub Frozen-change_status :
      (id status : String) (o : Repository.Order)
      → Keeps (Frozen w₀) (change_status env id status o)
  unfolding change_status
  Frozen-change_status id status o = search (frozen_rules, Frozen-create_audit_task) depth 12

  pub Frozen-update_status_body :
      (id status : String) → Keeps (Frozen w₀) (update_status_body env id status)
  unfolding update_status_body
  Frozen-update_status_body id status = search (frozen_rules, Frozen-change_status) depth 12

  pub Frozen-delete_order_body : (id : String) → Keeps (Frozen w₀) (delete_order_body env id)
  unfolding delete_order_body
  Frozen-delete_order_body id = search (frozen_rules, Frozen-create_audit_task) depth 12

  pub Frozen-check_return :
      (ret : Return) (o : Repository.Order) → Keeps (Frozen w₀) (check_return env ret o)
  unfolding check_return
  Frozen-check_return ret o = search frozen_rules depth 12

  pub Frozen-record_return :
      (ret : Return) (o : Repository.Order) → Keeps (Frozen w₀) (record_return env ret o)
  unfolding record_return
  Frozen-record_return ret o = search (frozen_rules, Frozen-create_audit_task) depth 12

  pub Frozen-add_return_body : (ret : Return) → Keeps (Frozen w₀) (add_return_body env ret)
  unfolding add_return_body
  Frozen-add_return_body ret =
      search (frozen_rules, Frozen-check_return, Frozen-record_return) depth 12

  pub Frozen-begin : (pre : String) → Keeps (Frozen w₀) (begin_wrapped env pre)
  Frozen-begin pre = search (keeps_rules, Frozen-begin_tx)

  pub Frozen-payload_of :
      (action id user old new : String)
      → AttemptKeeps (Frozen w₀) (payload_of env action id user old new)
  unfolding payload_of
  Frozen-payload_of action id user old new = record {
    at = λ w h. (Frozen-create_audit_payload action "order" id _).at w h;
  }

  pub Frozen-check_issue :
      (user : String) (at : ℕ) (o : Repository.Order)
      → AttemptKeeps (Frozen w₀) (check_issue env user at o)
  unfolding check_issue
  Frozen-check_issue user at o = search attempt_rules

  pub Frozen-check_accept :
      (user : String) (at : ℕ) (o : Repository.Order)
      → AttemptKeeps (Frozen w₀) (check_accept env user at o)
  unfolding check_accept
  Frozen-check_accept user at o = search attempt_rules

  pub Frozen-issue_one :
      (user : String) (at : ℕ) (id : String) → AttemptKeeps (Frozen w₀) (issue_one env user at id)
  unfolding issue_one
  Frozen-issue_one user at id =
      search (attempt_rules, frozen_rules, Frozen-payload_of, Frozen-check_issue) depth 12

  pub Frozen-accept_one :
      (user : String) (at : ℕ) (id : String) → AttemptKeeps (Frozen w₀) (accept_one env user at id)
  unfolding accept_one
  Frozen-accept_one user at id =
      search (attempt_rules, frozen_rules, Frozen-payload_of, Frozen-check_accept) depth 12

-- `begin` copies the committed tables; after an error nothing has changed.
pub begin_wrapped-work :
    (env : Env) (pre : String) (w : World)
    → (begin_wrapped env pre w).0 ≡ ok tt
    → (begin_wrapped env pre w).1.work ≡ w.db
unfolding map_error begin_tx
begin_wrapped-work env pre w h = ground arith
