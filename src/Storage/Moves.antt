-- ===== src/Storage/Moves.antt =====
-- The life of an order: which rows the methods may move from one status to another, and whose.
use ozon_final.Base.{
  ℕ, String, ◌≡◌, refl, sym, ap, ◌∙◌, ◌⊎◌, inl, inr, Bool, true, false, Option, none, some, List,
  if◌then◌else◌, ◌==◌, eq_iff, arith,
}
use mathlib.Core.Path.{subst}
use mathlib.Core.Option
use ozon_final.Repository
use ozon_final.Repository.{OutboxTask}
use ozon_final.World.{Env, World}
use ozon_final.Postgres.Orders.{find_order, update_rows, set_order}
use ozon_final.Postgres.Orders.Lookup.{find_order-update}
use ozon_final.Storage.{Return}
use ozon_final.Storage.Orders
use ozon_final.Storage.Orders.{changed}
use ozon_final.Storage.Bulk
use ozon_final.Storage.Bulk.{
  Attempt, Outcome, passed, skipped, broken, issue_one, accept_one, cache_set_all, cache_delete_all,
}
use ozon_final.Storage.Durable.{in_transaction-db, bulk-db}
use ozon_final.Storage.Frozen.{Frozen-add_return_body, Frozen-issue_one, Frozen-accept_one}
use ozon_final.Storage.Invariants.{step_of, db-cache_set_all, db-cache_delete_all}
use ozon_final.Storage.Rows.{On, create_task_tx-On}
use ozon_final.Storage.Rows.Bodies.{Rows, ReadRows, add_return_body-On}
use ozon_final.Storage.Rows.Batches.{issue_one-On, accept_one-On}

-- A row keeps its recipient and its price, and its status too unless it moves between the two given
-- ones and belongs to the user.
abbrev pub Step : String → String → String → Repository.Order → Repository.Order → Type 0
Step from to user o o' =
    ((o'.recipient_id ≡ o.recipient_id) × (o'.price ≡ o.price))
    × ((o'.status ≡ o.status) ⊎ (((o.status ≡ from) × (o'.status ≡ to)) × (o.recipient_id ≡ user)))

abbrev pub Moved :
    String → String → String → Option Repository.Order → Option Repository.Order → Type 0
Moved from to user none none = Unit
Moved from to user none (some o') = ⊥
Moved from to user (some o) none = ⊥
Moved from to user (some o) (some o') = Step from to user o o'

-- The same ids have rows, and each row makes such a step.
abbrev pub Moves : String → String → String → List Repository.Order → List Repository.Order → Type 0
Moves from to user base os =
    (id : String) → Moved from to user (find_order id base) (find_order id os)

module _ (from to user : String) where
  Moved-refl : (r : Option Repository.Order) → Moved from to user r r
  Moved-refl none = tt
  Moved-refl (some o) = ((refl, refl), inl refl)

  step_on :
      (env : Env) (at : ℕ) (o : Repository.Order) (b c : Option Repository.Order)
      → Moved from to user b c
      → c ≡ some o
      → o.status ≡ from
      → o.recipient_id ≡ user
      → Moved from to user b (Option.map (set_order env (changed o to at)) c)
  step_on env at o none none m e s r = tt
  step_on env at o none (some x) m e s r = m
  step_on env at o (some b) none m e s r = m
  step_on env at o (some b) (some x) m e s r =
      let same : o ≡ x = ground (arith, e) in
      let recipient : o.recipient_id ≡ b.recipient_id = ap (λ y. y.recipient_id) same ∙ m.0.0 in
      (
        (recipient, ap (λ y. y.price) same ∙ m.0.1),
        inr ((before (sym (ap (λ y. y.status) same) ∙ s) m.1, refl), sym recipient ∙ r),
      )
    where
      before :
          x.status ≡ from
          → ((x.status ≡ b.status)
              ⊎ (((b.status ≡ from) × (x.status ≡ to)) × (b.recipient_id ≡ user)))
          → b.status ≡ from
      before h (inl k) = sym k ∙ h
      before h (inr k) = k.0.0

  module _ (env : Env) (base : List Repository.Order) where
    update-Moves :
        (os : List Repository.Order) (id : String) (o : Repository.Order) (at : ℕ)
        → ReadRows (Moves from to user base) id o os
        → o.status ≡ from
        → o.recipient_id ≡ user
        → Moves from to user base (update_rows env (changed o to at) os)
    update-Moves os id o at r s u j =
        subst (Moved from to user (find_order j base))
          (sym (find_order-update env (changed o to at) j os))
          (by_test (o.id == j)
            λ k. subst (λ key. find_order key os ≡ some o) (sym r.1 ∙ (eq_iff o.id j).0 k) r.0.1)
      where
        by_test :
            (b : Bool)
            → (b ≡ true → find_order j os ≡ some o)
            → Moved from to user (find_order j base) (
                if b
                then Option.map (set_order env (changed o to at)) (find_order j os)
                else find_order j os)
        by_test true k =
            step_on env at o (find_order j base) (find_order j os) (r.0.0 j) (k refl) s u
        by_test false k = r.0.0 j

  module _ (env : Env) (w : World) where
    abbrev Since : Rows
    Since = Moves from to user w.db.orders

    start : Since w.db.orders
    start j = Moved-refl (find_order j w.db.orders)

module _ (env : Env) (w : World) where
  -- `AddReturn` keeps the set of ids with a row, the recipient and the price of every row, and the
  -- status of every row that is not moved from "issued" to "returned"; a row that is moved belongs to the
  -- user of the return.
  pub add_return-Moves :
      (ret : Return)
      → Moves "issued" "returned" ret.user_id w.db.orders (Orders.add_return env ret w).1.db.orders
  unfolding Orders.add_return
  add_return-Moves ret =
      let since : Rows = Moves "issued" "returned" ret.user_id w.db.orders in
      in_transaction-db (On since) env _ (λ a w'. refl) _ _ w
        (start "issued" "returned" ret.user_id env w) (Frozen-add_return_body env ret)
        (add_return_body-On env since since ret λ os o at r c.
          update-Moves "issued" "returned" ret.user_id env w.db.orders os ret.order_id o at r
            c.status c.owner)

  -- `IssueOrders` keeps the set of ids with a row, the recipient and the price of every row, and the
  -- status of every row that is not moved from "received" to "issued"; a row that is moved belongs to
  -- the user of the call.
  pub issue_orders-Moves :
      (user : String) (ids : List String)
      → Moves "received" "issued" user w.db.orders (Bulk.issue_orders env user ids w).1.db.orders
  unfolding Bulk.issue_orders
  issue_orders-Moves user ids =
      let since : Rows = Moves "received" "issued" user w.db.orders in
      bulk-db (On since) env _ (db-cache_set_all env) _ _ _ ids w
        (start "received" "issued" user env w) (Frozen-issue_one env user)
        (step_of (On since) _ λ at id.
          issue_one-On env since since (λ os h. h) (λ _. since) user at id
            λ os o r c.
              update-Moves "received" "issued" user env w.db.orders os id o at r c.status c.owner)
        (create_task_tx-On env since)

  -- `AcceptReturns` keeps the set of ids with a row, the recipient and the price of every row, and the
  -- status of every row that is not moved from "issued" to "returned"; a row that is moved belongs to
  -- the user of the call.
  pub accept_returns-Moves :
      (user : String) (ids : List String)
      → Moves "issued" "returned" user w.db.orders (Bulk.accept_returns env user ids w).1.db.orders
  unfolding Bulk.accept_returns
  accept_returns-Moves user ids =
      let since : Rows = Moves "issued" "returned" user w.db.orders in
      bulk-db (On since) env _ (db-cache_delete_all env) _ _ _ ids w
        (start "issued" "returned" user env w) (Frozen-accept_one env user)
        (step_of (On since) _ λ at id.
          accept_one-On env since since (λ os h. h) (λ _. since) user at id
            λ os o r c.
              update-Moves "issued" "returned" user env w.db.orders os id o at r c.status c.owner)
        (create_task_tx-On env since)
