-- ===== src/Storage/Sync/Singles.antt =====
-- The cache against the committed rows after a method on one order.
use ozon_final.Base.{
  ℕ, String, ◌≡◌, sym, ap, none, some, List, [], ◌∷◌, ◌++◌, keep, not, ◌==◌, eq_iff, arith,
}
use mathlib.Core.Path.{subst}
use ozon_final.Repository
use ozon_final.World.{Env, World}
use ozon_final.Cache
use ozon_final.Postgres.Orders.{find_order, order_row, update_rows}
use ozon_final.Storage.{Order, Return, to_row}
use ozon_final.Storage.Orders
use ozon_final.Storage.Orders.{changed}
use ozon_final.Storage.Frozen.{
  Frozen-add_order_body, Frozen-update_status_body, Frozen-delete_order_body,
  Frozen-add_return_body,
}
use ozon_final.Storage.Invariants.{state-forget}
use ozon_final.Storage.Rows.Bodies.{
  Rows, ReadRows, add_order_body-On, delete_order_body-On, update_status_body-On,
  add_return_body-On,
}
use ozon_final.Storage.Committed.{IsHonest, Synced, in_transaction-Synced}
use ozon_final.Storage.Coherence.{
  IsStable, Known, Effect, order_row_idem, set-Known, delete-Known, append-Effect, remove-Effect,
  update-Effect,
}

module _ (env : Env) (honest : IsHonest env) (stable : IsStable env)
    (P : String → Repository.Order → Type 0) (w : World) (h : Synced (Known env P) w) where
  abbrev Start : Rows
  Start os = os ≡ w.db.orders

  pub add_order-Known : (o : Order) → Synced (Known env P) (Orders.add_order env o w).1
  unfolding Orders.add_order
  add_order-Known o =
      in_transaction-Synced env honest (Known env P) (λ _. Cache.set (to_row o))
        (λ _. Effect o.id (some (order_row env (to_row o))) w.db.orders) w
        (λ _ os e. set-Known env stable w.db.orders os w.cache h (to_row o) e) _ _ h
        (Frozen-add_order_body env o)
        (add_order_body-On env Start (Effect o.id (some (order_row env (to_row o))) w.db.orders) o
          λ os same fresh.
            subst
              (λ base.
                Effect o.id (some (order_row env (to_row o))) base
                  (os ++ order_row env (to_row o) ∷ []))
              same (append-Effect os (order_row env (to_row o)) fresh))

  pub delete_order-Known : (id : String) → Synced (Known env P) (Orders.delete_order env id w).1
  unfolding Orders.delete_order
  delete_order-Known id =
      in_transaction-Synced env honest (Known env P) (λ _. Cache.delete id)
        (λ _. Effect id none w.db.orders) w
        (λ _ os e. delete-Known env stable w.db.orders os w.cache h id none (λ y q. cc) e) _ _ h
        (Frozen-delete_order_body env id)
        (delete_order_body-On env Start (Effect id none w.db.orders) id λ os same.
          subst (λ base. Effect id none base (keep (λ o. not (o.id == id)) os)) same
            (remove-Effect os id))

  -- The row that was read is the row of the method's first state.
  stored :
      (os : List Repository.Order) (id : String) (o : Repository.Order)
      → ReadRows Start id o os
      → order_row env o ≡ o
  stored os id o r = h.stored id o (subst (λ base. find_order id base ≡ some o) r.0.0 r.0.1)

  abbrev Written : Repository.Order → Rows
  Written o = Effect o.id (some (order_row env o)) w.db.orders

  -- An order that is written as it is changes nothing.
  same-Effect :
      (os : List Repository.Order) (id : String) (o : Repository.Order)
      → ReadRows Start id o os
      → Written o os
  same-Effect os id o r j =
      let row : order_row env o ≡ o = stored os id o r in
      let at_start : find_order id w.db.orders ≡ some o =
        subst (λ base. find_order id base ≡ some o) r.0.0 r.0.1 in
      let moved : find_order j os ≡ find_order j w.db.orders = ap (find_order j) r.0.0 in
      ground (arith, row, at_start, moved, r.1, eq_iff o.id j)

  new-Effect :
      (os : List Repository.Order) (id status : String) (o : Repository.Order) (at : ℕ)
      → ReadRows Start id o os
      → Written (changed o status at) (update_rows env (changed o status at) os)
  new-Effect os id status o at r =
      subst
        (λ base.
          Effect o.id (some (order_row env (changed o status at))) base
            (update_rows env (changed o status at) os))
        r.0.0
        (update-Effect env os o status at
          (subst (λ key. find_order key os ≡ some o) (sym r.1) r.0.1) (stored os id o r))

  pub update_order_status-Known :
      (id status : String) → Synced (Known env P) (Orders.update_order_status env id status w).1
  unfolding Orders.update_order_status
  update_order_status-Known id status = subst (Synced (Known env P)) (sym (state-forget _ w)) (
      in_transaction-Synced env honest (Known env P) Cache.set Written w
        (λ o os e. set-Known env stable w.db.orders os w.cache h o e) _ _ h
        (Frozen-update_status_body env id status)
        (update_status_body-On env Start Written id status (λ os o r e. same-Effect os id o r)
          (λ os o at r. new-Effect os id status o at r)))

  -- Some row is written at the id.
  abbrev Rewritten : String → Rows
  Rewritten id os = (o : Repository.Order) × Effect id (some (order_row env o)) w.db.orders os

  pub add_return-Known : (ret : Return) → Synced (Known env P) (Orders.add_return env ret w).1
  unfolding Orders.add_return
  add_return-Known ret =
      in_transaction-Synced env honest (Known env P) (λ _. Cache.delete ret.order_id)
        (λ _. Rewritten ret.order_id) w
        (λ _ os e.
          delete-Known env stable w.db.orders os w.cache h ret.order_id (some (order_row env e.0))
            (λ y q.
              let same : order_row env e.0 ≡ y = cc in
              subst (λ z. order_row env z ≡ z) same (order_row_idem env stable e.0))
            e.1)
        _ _ h (Frozen-add_return_body env ret)
        (add_return_body-On env Start (Rewritten ret.order_id) ret λ os o at r checked. (
          changed o "returned" at,
          subst
              (λ key.
                Effect key (some (order_row env (changed o "returned" at))) w.db.orders
                  (update_rows env (changed o "returned" at) os))
              r.1 (new-Effect os ret.order_id "returned" o at r),
        ))
