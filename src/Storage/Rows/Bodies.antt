-- ===== src/Storage/Rows/Bodies.antt =====
-- The rows after each body of a storage method on one order.
use ozon_final.Base.{
  ℕ, String, ◌≡◌, not, Option, none, some, List, [], ◌∷◌, ◌++◌, keep, ◌==◌, eq_iff, arith,
}
use ozon_final.Base.Dict.{Dict}
use ozon_final.Repository
use ozon_final.World.{Env, Tables, ◌>>=◌, now}
use ozon_final.Postgres.Ensures.{
  Ensures, Ensures-pure, Ensures-if, Ensures-map_error, Ensures-bind, Ensures-now,
}
use ozon_final.Postgres.Orders.{find_order, order_row, update_rows}
use ozon_final.Storage.{Order, Return, to_row}
use ozon_final.Storage.Orders.{
  create_audit_task, changed, add_order_body, change_status, update_status_body, delete_order_body,
  check_return, record_return, add_return_body,
}
use ozon_final.Storage.History.{get_by_id_tx-found}
use ozon_final.Storage.History.Bodies.{create_audit_task-keeps}
use ozon_final.Storage.Rows.{
  On, create_history_tx-On, create_return_tx-On, create_tx-On, update_tx-On, delete_tx-On,
}

abbrev pub Rows : Type 1
Rows = List Repository.Order → Type 0

-- The rows once an order is read.
abbrev pub ReadRows : Rows → String → Repository.Order → Rows
ReadRows p id o os = (p os × (find_order id os ≡ some o)) × (o.id ≡ id)

-- The checks of `AddReturn`, but for the time.
pub record Returnable (ret : Return) (o : Repository.Order) : Type 0 where
  pub owner : o.recipient_id ≡ ret.user_id
  pub status : o.status ≡ "issued"

module _ (env : Env) where
  pub check_return-Returnable :
      (P : Tables → Type 0) (ret : Return) (o : Repository.Order)
      → Ensures P (check_return env ret o) (λ _ t. P t × Returnable ret o)
  unfolding check_return ◌>>=◌ now
  check_return-Returnable P ret o = record {
    at = λ w h. ground (arith, eq_iff o.recipient_id ret.user_id, eq_iff o.status "issued");
  }

  audit-On :
      (p : Rows) (pre action id : String) (details : Option (Dict String))
      → Ensures (On p) (create_audit_task env pre action id details) (λ _. On p)
  audit-On p = create_audit_task-keeps env (On p) (λ t rs ts h. h)

  pub add_order_body-On :
      (p q : Rows) (o : Order)
      → ((os : List Repository.Order)
          → p os
          → find_order o.id os ≡ none
          → q (os ++ order_row env (to_row o) ∷ []))
      → Ensures (On p) (add_order_body env o) (λ _. On q)
  unfolding add_order_body
  add_order_body-On p q o k =
      Ensures-bind (On p) (λ _. On q) (λ _. On q) _ _
        (Ensures-map_error (On p) (λ _. On q) _ _ (create_tx-On env p q (to_row o) k))
        λ _.
          Ensures-bind (On q) (λ _. On q) (λ _. On q) _ _ (Ensures-now (On q) env)
            λ at.
              Ensures-bind (On q) (λ _. On q) (λ _. On q) _ _
                (Ensures-map_error (On q) (λ _. On q) _ _ (create_history_tx-On env q _))
                λ _. audit-On q _ _ _ _

  pub delete_order_body-On :
      (p q : Rows) (id : String)
      → ((os : List Repository.Order) → p os → q (keep (λ o. not (o.id == id)) os))
      → Ensures (On p) (delete_order_body env id) (λ _. On q)
  unfolding delete_order_body
  delete_order_body-On p q id k =
      Ensures-bind (On p) (λ _. On q) (λ _. On q) _ _
        (Ensures-map_error (On p) (λ _. On q) _ _ (delete_tx-On env p q id k))
        λ _. audit-On q _ _ _ _

  -- The value is the order in its new status, which the rows now hold.
  pub change_status-On :
      (p : Rows) (q : Repository.Order → Rows) (id status : String) (o : Repository.Order)
      → ((os : List Repository.Order) (at : ℕ)
          → p os
          → q (changed o status at) (update_rows env (changed o status at) os))
      → Ensures (On p) (change_status env id status o) (λ o'. On (q o'))
  unfolding change_status
  change_status-On p q id status o k =
      Ensures-bind (On p) (λ _. On p) (λ o'. On (q o')) _ _ (Ensures-now (On p) env)
        λ at.
          let q' : Rows = q (changed o status at) in
          Ensures-bind (On p) (λ _. On q') (λ o'. On (q o')) _ _
            (Ensures-map_error (On p) (λ _. On q') _ _
              (update_tx-On env p q' (changed o status at) (λ os h. k os at h)))
            λ _.
              Ensures-bind (On q') (λ _. On q') (λ o'. On (q o')) _ _
                (Ensures-map_error (On q') (λ _. On q') _ _ (create_history_tx-On env q' _))
                λ _.
                  Ensures-bind (On q') (λ _. On q') (λ o'. On (q o')) _ _ (audit-On q' _ _ _ _)
                    λ _. Ensures-pure (On q') (λ o'. On (q o')) (changed o status at) (λ t h. h)

  pub update_status_body-On :
      (p : Rows) (q : Repository.Order → Rows) (id status : String)
      → ((os : List Repository.Order) (o : Repository.Order)
          → ReadRows p id o os
          → o.status ≡ status
          → q o os)
      → ((os : List Repository.Order) (o : Repository.Order) (at : ℕ)
          → ReadRows p id o os
          → q (changed o status at) (update_rows env (changed o status at) os))
      → Ensures (On p) (update_status_body env id status) (λ o'. On (q o'))
  unfolding update_status_body
  update_status_body-On p q id status same new =
      Ensures-bind (On p) (λ o. On (ReadRows p id o)) (λ o'. On (q o')) _ _
        (Ensures-map_error (On p) (λ o. On (ReadRows p id o)) _ _
          (get_by_id_tx-found env (On p) id))
        λ o.
          Ensures-if (On (ReadRows p id o)) (λ o'. On (q o')) (o.status == status) _ _
            (λ e.
              Ensures-pure (On (ReadRows p id o)) (λ o'. On (q o')) o
                (λ t h. same t.orders o h ((eq_iff o.status status).0 e)))
            (λ _. change_status-On (ReadRows p id o) q id status o (λ os at h. new os o at h))

  record_return-On :
      (p q : Rows) (ret : Return) (o : Repository.Order)
      → ((os : List Repository.Order) (at : ℕ)
          → p os
          → q (update_rows env (changed o "returned" at) os))
      → Ensures (On p) (record_return env ret o) (λ _. On q)
  unfolding record_return
  record_return-On p q ret o k =
      Ensures-bind (On p) (λ _. On p) (λ _. On q) _ _ (Ensures-now (On p) env)
        λ at.
          Ensures-bind (On p) (λ _. On q) (λ _. On q) _ _
            (Ensures-map_error (On p) (λ _. On q) _ _
              (update_tx-On env p q (changed o "returned" at) (λ os h. k os at h)))
            λ _.
              Ensures-bind (On q) (λ _. On q) (λ _. On q) _ _ (Ensures-now (On q) env)
                λ at'.
                  Ensures-bind (On q) (λ _. On q) (λ _. On q) _ _
                    (Ensures-map_error (On q) (λ _. On q) _ _ (create_return_tx-On env q _))
                    λ _.
                      Ensures-bind (On q) (λ _. On q) (λ _. On q) _ _
                        (Ensures-map_error (On q) (λ _. On q) _ _ (create_history_tx-On env q _))
                        λ _. audit-On q _ _ _ _

  pub add_return_body-On :
      (p q : Rows) (ret : Return)
      → ((os : List Repository.Order) (o : Repository.Order) (at : ℕ)
          → ReadRows p ret.order_id o os
          → Returnable ret o
          → q (update_rows env (changed o "returned" at) os))
      → Ensures (On p) (add_return_body env ret) (λ _. On q)
  unfolding add_return_body
  add_return_body-On p q ret k =
      Ensures-bind (On p) (λ o. On (ReadRows p ret.order_id o)) (λ _. On q) _ _
        (Ensures-map_error (On p) (λ o. On (ReadRows p ret.order_id o)) _ _
          (get_by_id_tx-found env (On p) ret.order_id))
        λ o.
          let r : Rows = ReadRows p ret.order_id o in
          let checked : Rows = λ os. ReadRows p ret.order_id o os × Returnable ret o in
          Ensures-bind (On r) (λ _. On checked) (λ _. On q) _ _
            (check_return-Returnable (On r) ret o)
            λ _. record_return-On checked q ret o (λ os at h. k os o at h.0 h.1)
