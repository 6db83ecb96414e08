-- ===== src/Storage/History/Bodies.antt =====
-- The history and the bodies of the storage methods on one order.
use ozon_final.Base.{String, ◌≡◌, Option, some, ◌==◌, ℕ, arith}
use mathlib.Core.Path.{subst}
use ozon_final.Base.Dict.{Dict}
use ozon_final.Repository
use ozon_final.World.{Env, Tables, Action, ◌>>=◌, now}
use ozon_final.Postgres.Ensures.{
  Ensures, Ensures-pure, Ensures-if, Ensures-map_error, Ensures-exec, Ensures-bind, Ensures-now,
}
use ozon_final.Postgres.Orders.{find_order, update_tx, delete_tx}
use ozon_final.Storage.{Order, Return, to_row, create_audit_payload}
use ozon_final.Storage.Orders.{
  create_audit_task, changed, add_order_body, change_status, update_status_body, delete_order_body,
  check_return, record_return, add_return_body,
}
use ozon_final.Storage.Tracked.{Tracked, Pending, delete_order-Tracked}
use ozon_final.Storage.History.{
  Ignores, Ignores-Tracked, Ignores-Pending, create_tx-Pending, update_tx-Pending,
  create_history_tx-Tracked, create_return_tx-keeps, create_task_tx-keeps, get_by_id_tx-found,
}

module _ (env : Env) where
  module _ (P : Tables → Type 0) where
    pub create_audit_payload-keeps :
        (action entity id : String) (details : Option (Dict String))
        → Ensures P (create_audit_payload env action entity id details) (λ _. P)
    unfolding create_audit_payload
    create_audit_payload-keeps action entity id details =
        Ensures-bind P (λ _. P) (λ _. P) _ _ (Ensures-now P env)
          λ at. Ensures-pure P (λ _. P) _ (λ t h. h)

    pub create_audit_task-keeps :
        Ignores P
        → (pre action id : String) (details : Option (Dict String))
        → Ensures P (create_audit_task env pre action id details) (λ _. P)
    unfolding create_audit_task
    create_audit_task-keeps k pre action id details =
        Ensures-bind P (λ _. P) (λ _. P) _ _ (create_audit_payload-keeps action "order" id details)
          λ payload. Ensures-map_error P (λ _. P) _ _ (create_task_tx-keeps env P k _)

  -- The order in its new status leaves the history pending until the entry is there.
  pub update_changed-Pending :
      (id status : String) (at : ℕ) (o : Repository.Order)
      → o.id ≡ id
      → Ensures Tracked (update_tx env (changed o status at)) (λ _. Pending id status)
  update_changed-Pending id status at o e =
      subst (λ i. Ensures Tracked (update_tx env (changed o status at)) (λ _. Pending i status)) e
        (update_tx-Pending env (changed o status at))

  pub add_order_body-Tracked : (o : Order) → Ensures Tracked (add_order_body env o) (λ _. Tracked)
  unfolding add_order_body
  add_order_body-Tracked o =
      let pending : Tables → Type 0 = Pending o.id o.status in
      Ensures-bind Tracked (λ _. pending) (λ _. Tracked) _ _
        (Ensures-map_error Tracked (λ _. pending) _ _ (create_tx-Pending env (to_row o)))
        λ _.
          Ensures-bind pending (λ _. pending) (λ _. Tracked) _ _ (Ensures-now pending env)
            λ at.
              Ensures-bind pending (λ _. Tracked) (λ _. Tracked) _ _
                (Ensures-map_error pending (λ _. Tracked) _ _ (create_history_tx-Tracked env _))
                λ _. create_audit_task-keeps Tracked Ignores-Tracked _ _ _ _

  pub change_status-Tracked :
      (id status : String) (o : Repository.Order)
      → o.id ≡ id
      → Ensures Tracked (change_status env id status o) (λ _. Tracked)
  unfolding change_status
  change_status-Tracked id status o e =
      let pending : Tables → Type 0 = Pending id status in
      Ensures-bind Tracked (λ _. Tracked) (λ _. Tracked) _ _ (Ensures-now Tracked env)
        λ at.
          Ensures-bind Tracked (λ _. pending) (λ _. Tracked) _ _
            (Ensures-map_error Tracked (λ _. pending) _ _ (update_changed-Pending id status at o e))
            λ _.
              Ensures-bind pending (λ _. Tracked) (λ _. Tracked) _ _
                (Ensures-map_error pending (λ _. Tracked) _ _ (create_history_tx-Tracked env _))
                λ _.
                  Ensures-bind Tracked (λ _. Tracked) (λ _. Tracked) _ _
                    (create_audit_task-keeps Tracked Ignores-Tracked _ _ _ _)
                    λ _. Ensures-pure Tracked (λ _. Tracked) _ (λ t h. h)

  -- What is known once the order is read.
  abbrev pub Read : String → Repository.Order → Tables → Type 0
  Read id o t = (Tracked t × (find_order id t.orders ≡ some o)) × (o.id ≡ id)

  -- After the read, only the invariant and the id are needed.
  Ensures-Read :
      {A : Type 0} (id : String) (o : Repository.Order) (m : Action A)
      → (o.id ≡ id → Ensures Tracked m (λ _. Tracked))
      → Ensures (Read id o) m (λ _. Tracked)
  Ensures-Read id o m k = record { at = λ w h. (k h.1).at w h.0.0 }

  pub update_status_body-Tracked :
      (id status : String) → Ensures Tracked (update_status_body env id status) (λ _. Tracked)
  unfolding update_status_body
  update_status_body-Tracked id status =
      Ensures-bind Tracked (Read id) (λ _. Tracked) _ _
        (Ensures-map_error Tracked (Read id) _ _ (get_by_id_tx-found env Tracked id))
        λ o. Ensures-Read id o _ λ e.
          Ensures-if Tracked (λ _. Tracked) (o.status == status) _ _
            (λ _. Ensures-pure Tracked (λ _. Tracked) o (λ t h. h))
            (λ _. change_status-Tracked id status o e)

  pub delete_order_body-Tracked :
      (id : String) → Ensures Tracked (delete_order_body env id) (λ _. Tracked)
  unfolding delete_order_body delete_tx
  delete_order_body-Tracked id =
      Ensures-bind Tracked (λ _. Tracked) (λ _. Tracked) _ _
        (Ensures-map_error Tracked (λ _. Tracked) _ _
          (Ensures-exec Tracked (λ _. Tracked) env _ (λ n t h. delete_order-Tracked t env n id h)))
        λ _. create_audit_task-keeps Tracked Ignores-Tracked _ _ _ _

  pub record_return-Tracked :
      (ret : Return) (o : Repository.Order)
      → o.id ≡ ret.order_id
      → Ensures Tracked (record_return env ret o) (λ _. Tracked)
  unfolding record_return
  record_return-Tracked ret o e =
      let pending : Tables → Type 0 = Pending ret.order_id "returned" in
      Ensures-bind Tracked (λ _. Tracked) (λ _. Tracked) _ _ (Ensures-now Tracked env)
        λ at.
          Ensures-bind Tracked (λ _. pending) (λ _. Tracked) _ _
            (Ensures-map_error Tracked (λ _. pending) _ _
              (update_changed-Pending ret.order_id "returned" at o e))
            λ _.
              Ensures-bind pending (λ _. pending) (λ _. Tracked) _ _ (Ensures-now pending env)
                λ at'.
                  Ensures-bind pending (λ _. pending) (λ _. Tracked) _ _
                    (Ensures-map_error pending (λ _. pending) _ _
                      (create_return_tx-keeps env pending (Ignores-Pending ret.order_id "returned")
                        _))
                    λ _.
                      Ensures-bind pending (λ _. Tracked) (λ _. Tracked) _ _
                        (Ensures-map_error pending (λ _. Tracked) _ _
                          (create_history_tx-Tracked env _))
                        λ _. create_audit_task-keeps Tracked Ignores-Tracked _ _ _ _

  pub check_return-keeps :
      (P : Tables → Type 0) (ret : Return) (o : Repository.Order)
      → Ensures P (check_return env ret o) (λ _. P)
  unfolding check_return ◌>>=◌ now
  check_return-keeps P ret o = record { at = λ w h. ground arith }

  pub add_return_body-Tracked :
      (ret : Return) → Ensures Tracked (add_return_body env ret) (λ _. Tracked)
  unfolding add_return_body
  add_return_body-Tracked ret =
      Ensures-bind Tracked (Read ret.order_id) (λ _. Tracked) _ _
        (Ensures-map_error Tracked (Read ret.order_id) _ _
          (get_by_id_tx-found env Tracked ret.order_id))
        λ o. Ensures-Read ret.order_id o _ λ e.
          Ensures-bind Tracked (λ _. Tracked) (λ _. Tracked) _ _ (check_return-keeps Tracked ret o)
            λ _. record_return-Tracked ret o e
