-- ===== src/Storage/Audit.antt =====
-- The transactional outbox: the audit tasks that the bodies of the methods add.
use ozon_final.Base.{String, ◌≡◌, refl, some, List, [], ◌∷◌}
use mathlib.Core.Path.{subst}
use ozon_final.Base.Dict.{lookup}
use ozon_final.Errors.{Result, ok, err}
use ozon_final.Repository
use ozon_final.Repository.{OutboxTask, AuditLogPayload, HistoryEntry, ReturnEntry, new_task}
use ozon_final.World.{Env, Tables, World}
use ozon_final.Postgres.Ensures.{
  Ensures, Post, Ensures-pure, Ensures-map_error, Ensures-bind, Ensures-now, Ensures-fact,
}
use ozon_final.Postgres.Orders.{find_order}
use ozon_final.Storage.History.{get_by_id_tx-found}
use ozon_final.Storage.Rows.Bodies.{Returnable, check_return-Returnable}
use ozon_final.Storage.{Order, Return, to_row}
use ozon_final.Storage.Orders.{
  changed, add_order_body, change_status, record_return, add_return_body,
}
use ozon_final.Storage.Logged.{
  Logged, Unlogged, create_audit_task-Logged, create_history_tx-Unlogged, create_return_tx-Unlogged,
  update_tx-Unlogged, create_tx-Unlogged,
}

module _ (env : Env) (base : List OutboxTask) where
  abbrev Before : Tables → Type 0
  Before = Unlogged env base

  add_order_body-Logged :
      (o : Order)
      → Ensures Before (add_order_body env o) (λ _. Logged base "ORDER_CREATED" o.id "" o.status)
  unfolding add_order_body lookup
  add_order_body-Logged o =
      let after : Tables → Type 0 = Logged base "ORDER_CREATED" o.id "" o.status in
      Ensures-bind Before (λ _. Before) (λ _. after) _ _
        (Ensures-map_error Before (λ _. Before) _ _ (create_tx-Unlogged env base (to_row o)))
        λ _.
          Ensures-bind Before (λ _. Before) (λ _. after) _ _ (Ensures-now Before env)
            λ at.
              Ensures-bind Before (λ _. Before) (λ _. after) _ _
                (Ensures-map_error Before (λ _. Before) _ _ (create_history_tx-Unlogged env base _))
                λ _.
                  create_audit_task-Logged env base _ "ORDER_CREATED" o.id
                    (some (("status", o.status) ∷ []))

  change_status-Logged :
      (id status : String) (o : Repository.Order)
      → Ensures Before
          (change_status env id status o)
          (λ _. Logged base "STATUS_UPDATED" id o.status "")
  unfolding change_status lookup
  change_status-Logged id status o =
      let after : Tables → Type 0 = Logged base "STATUS_UPDATED" id o.status "" in
      Ensures-bind Before (λ _. Before) (λ _. after) _ _ (Ensures-now Before env)
        λ at.
          Ensures-bind Before (λ _. Before) (λ _. after) _ _
            (Ensures-map_error Before (λ _. Before) _ _ (update_tx-Unlogged env base _))
            λ _.
              Ensures-bind Before (λ _. Before) (λ _. after) _ _
                (Ensures-map_error Before (λ _. Before) _ _ (create_history_tx-Unlogged env base _))
                λ _.
                  Ensures-bind Before (λ _. after) (λ _. after) _ _
                    (create_audit_task-Logged env base _ "STATUS_UPDATED" id
                      (some (("old_status", o.status) ∷ ("new_status", status) ∷ [])))
                    λ _. Ensures-pure after (λ _. after) (changed o status at) (λ t h. h)

  record_return-Logged :
      (ret : Return) (o : Repository.Order)
      → Ensures Before
          (record_return env ret o)
          (λ _. Logged base "ORDER_RETURNED" ret.order_id o.status "")
  unfolding record_return lookup
  record_return-Logged ret o =
      let after : Tables → Type 0 = Logged base "ORDER_RETURNED" ret.order_id o.status "" in
      Ensures-bind Before (λ _. Before) (λ _. after) _ _ (Ensures-now Before env)
        λ at.
          Ensures-bind Before (λ _. Before) (λ _. after) _ _
            (Ensures-map_error Before (λ _. Before) _ _ (update_tx-Unlogged env base _))
            λ _.
              Ensures-bind Before (λ _. Before) (λ _. after) _ _ (Ensures-now Before env)
                λ at'.
                  Ensures-bind Before (λ _. Before) (λ _. after) _ _
                    (Ensures-map_error Before (λ _. Before) _ _
                      (create_return_tx-Unlogged env base _))
                    λ _.
                      Ensures-bind Before (λ _. Before) (λ _. after) _ _
                        (Ensures-map_error Before (λ _. Before) _ _
                          (create_history_tx-Unlogged env base _))
                        λ _. create_audit_task-Logged env base _ "ORDER_RETURNED" ret.order_id (
                          some (
                            ("user_id", ret.user_id)
                            ∷ ("old_status", o.status)
                            ∷ ("new_status", "returned")
                            ∷ []))

  add_return_body-Logged :
      (ret : Return)
      → Ensures Before
          (add_return_body env ret)
          (λ _. Logged base "ORDER_RETURNED" ret.order_id "issued" "")
  unfolding add_return_body
  add_return_body-Logged ret =
      let after : String → Tables → Type 0 =
        λ old. Logged base "ORDER_RETURNED" ret.order_id old "" in
      Ensures-bind Before (λ _. Before) (λ _. after "issued") _ _
        (Ensures-map_error Before (λ _. Before) _ _
          (record { at = λ w h. weaken _ ((get_by_id_tx-found env Before ret.order_id).at w h) }))
        λ o.
          Ensures-bind Before (λ _ t. Before t × Returnable ret o) (λ _. after "issued") _ _
            (check_return-Returnable env Before ret o)
            λ _.
              Ensures-fact Before (λ _. after "issued") _
                λ c.
                  subst (λ old. Ensures Before (record_return env ret o) (λ _. after old)) c.status
                    (record_return-Logged ret o)
    where
      weaken :
          (r : Result Repository.Order × World)
          → Post
              (λ o t.
                (Before t × (find_order ret.order_id t.orders ≡ some o)) × (o.id ≡ ret.order_id))
              r
          → Post (λ _. Before) r
      weaken (ok o, w) h = h.0.0
      weaken (err e, w) h = tt

on_ok :
    {A : Type 0} (Q : Tables → Type 0) (r : Result A × World) {a : A}
    → Post (λ _. Q) r
    → r.0 ≡ ok a
    → Q r.1.work
on_ok Q (ok x, w) h e = h
on_ok Q (err x, w) h e = cc

module _ (env : Env) (w : World) where
  -- When the body of `AddOrder` succeeds, it has put exactly one task into the outbox of its
  -- transaction, a new one for the topic of audit logs, which records the creation of this order and
  -- its status as the new one.
  pub add_order_body-logs :
      (o : Order)
      → (add_order_body env o w).0 ≡ ok tt
      → Logged w.work.outbox "ORDER_CREATED" o.id "" o.status (add_order_body env o w).1.work
  add_order_body-logs o =
      on_ok _ (add_order_body env o w) ((add_order_body-Logged env w.work.outbox o).at w refl)

  -- When `UpdateOrderStatus` has changed a status, it has put exactly one task into the outbox of its
  -- transaction, which records the old status; the new status in it is empty, whatever it is.
  pub change_status-logs :
      (id status : String) (o : Repository.Order) {o' : Repository.Order}
      → (change_status env id status o w).0 ≡ ok o'
      → Logged w.work.outbox "STATUS_UPDATED" id o.status ""
          (change_status env id status o w).1.work
  change_status-logs id status o =
      on_ok _ (change_status env id status o w)
        ((change_status-Logged env w.work.outbox id status o).at w refl)

  -- When the body of `AddReturn` succeeds, it has put exactly one task into the outbox of its
  -- transaction, which records the return of this order and "issued" as its old status; the new status
  -- in it is empty.
  pub add_return_body-logs :
      (ret : Return)
      → (add_return_body env ret w).0 ≡ ok tt
      → Logged w.work.outbox "ORDER_RETURNED" ret.order_id "issued" ""
          (add_return_body env ret w).1.work
  add_return_body-logs ret =
      on_ok _ (add_return_body env ret w) ((add_return_body-Logged env w.work.outbox ret).at w refl)
