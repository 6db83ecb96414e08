-- ===== src/Storage/Contract.antt =====
-- The methods of the storage against the abstract order book, with a database that serves every call.
use ozon_final.Base.{
  ℕ, String, ◌≡◌, refl, ap, ◌∙◌, Bool, ◌&&◌, if◌then◌else◌, Option, none, some, List, [], ◌∷◌, ◌++◌,
  keep, not, ◌==◌, arith,
}
use mathlib.Core.Path.{subst}
use mathlib.Core.Option
use ozon_final.Errors.{Error}
use ozon_final.Repository
use ozon_final.World.{Env, World}
use ozon_final.Postgres.Orders.{find_order, order_row, update_rows}
use ozon_final.Storage.{Order, Return, to_row}
use ozon_final.Storage.Orders
use ozon_final.Storage.Orders.{begin_wrapped, changed}
use ozon_final.Storage.Calls.{
  Method, add_order, update_order_status, delete_order, add_return, issue_orders, accept_returns,
  perform,
}
use ozon_final.Storage.Rollback.{perform_error-Frozen}
use ozon_final.Storage.Rows.Bodies.{
  Rows, add_order_body-On, delete_order_body-On, update_status_body-On, add_return_body-On,
}
use ozon_final.Storage.Bulk.Exact.{
  among, fitting, After, become, issue_orders-After, accept_returns-After,
}
use ozon_final.Storage.Book.{
  Entry, entry_of, book_of, Put, Advanced, Meets, append-Put, remove-Put, update-Put, same-Put,
}
use ozon_final.Storage.Serving.{IsServing, Done, on_success, forget-Done, in_transaction-Done}

module _ (env : Env) (serving : IsServing env) where
  module _ (w : World) where
    abbrev Start : Rows
    Start os = os ≡ w.db.orders

    abbrev now : ℕ
    now = env.clock w.readings

    abbrev Met : Method → Rows
    Met m os = Meets now m w.db.orders os

    add_order-Done : (o : Order) → Done (Met (add_order o)) (Orders.add_order env o w)
    unfolding Orders.add_order
    add_order-Done o =
        in_transaction-Done env serving _ (λ a w. refl) (Met (add_order o)) _ _ w
          (add_order_body-On env Start (Met (add_order o)) o λ os start fresh.
            subst (λ base. Meets now (add_order o) base (os ++ order_row env (to_row o) ∷ [])) start
              (ap (Option.map entry_of) fresh, append-Put env os (to_row o) fresh))

    delete_order-Done : (id : String) → Done (Met (delete_order id)) (Orders.delete_order env id w)
    unfolding Orders.delete_order
    delete_order-Done id =
        in_transaction-Done env serving _ (λ a w. refl) (Met (delete_order id)) _ _ w
          (delete_order_body-On env Start (Met (delete_order id)) id λ os start.
            subst (λ base. Meets now (delete_order id) base (keep (λ o. not (o.id == id)) os)) start
              (remove-Put os id))

    update_order_status-Done :
        (id status : String)
        → Done (Met (update_order_status id status)) (Orders.update_order_status env id status w)
    unfolding Orders.update_order_status
    update_order_status-Done id status =
        let met : Rows = Met (update_order_status id status) in
        forget-Done met _ w (
          in_transaction-Done env serving _ (λ a w. refl) met _ _ w
            (update_status_body-On env Start (λ _. met) id status
              (λ os o r e.
                subst (λ base. Meets now (update_order_status id status) base os) r.0.0
                  (
                    entry_of o,
                    ap (Option.map entry_of) r.0.1,
                    subst
                        (λ x.
                          Put id (some (record (entry_of o) { status = x })) (book_of os)
                            (book_of os))
                        e (same-Put os id r.0.1),
                  ))
              λ os o at r.
                subst
                  (λ base.
                    Meets now (update_order_status id status) base
                      (update_rows env (changed o status at) os))
                  r.0.0
                  (
                    entry_of o,
                    ap (Option.map entry_of) r.0.1,
                    update-Put env os id status o at r.0.1 r.1,
                  )))

    add_return-Done : (ret : Return) → Done (Met (add_return ret)) (Orders.add_return env ret w)
    unfolding Orders.add_return
    add_return-Done ret =
        let met : Rows = Met (add_return ret) in
        in_transaction-Done env serving _ (λ a w. refl) met _ _ w
          (add_return_body-On env Start met ret λ os o at r c.
            subst
              (λ base.
                Meets now (add_return ret) base (update_rows env (changed o "returned" at) os))
              r.0.0
              (
                entry_of o,
                ap (Option.map entry_of) r.0.1,
                c.status,
                c.owner,
                update-Put env os ret.order_id "returned" o at r.0.1 r.1,
              ))

    become-Advanced :
        (status : String) (fits : Repository.Order → Bool) (ids : List String)
        (os : List Repository.Order)
        → After env status now fits w.db.orders ids os
        → Advanced fits status ids w.db.orders os
    become-Advanced status fits ids os h j =
        ap (Option.map entry_of) (h j) ∙ by_row (among j ids) (find_order j w.db.orders)
      where
        by_row :
            (d : Bool) (x : Option Repository.Order)
            → Option.map entry_of (become env status now fits d x) ≡ (
                if d && fitting fits x
                then Option.map
                    (λ (e : Entry). record e { status = status })
                    (Option.map entry_of x)
                else Option.map entry_of x)
        by_row d none = ground arith
        by_row d (some o) = ground arith

    perform-Met : (m : Method) → (perform env m w).0 ≡ none → Met m (perform env m w).1.db.orders
    unfolding perform
    perform-Met (add_order o) = on_success _ _ (add_order-Done o)
    perform-Met (update_order_status id status) =
        on_success _ _ (update_order_status-Done id status)
    perform-Met (delete_order id) = on_success _ _ (delete_order-Done id)
    perform-Met (add_return ret) = on_success _ _ (add_return-Done ret)
    perform-Met (issue_orders user ids) =
        λ e. become-Advanced "issued" _ ids _ (issue_orders-After env serving user ids w e)
    perform-Met (accept_returns user ids) =
        λ e. become-Advanced "returned" _ ids _ (accept_returns-After env serving user ids w e)

-- A call and its effect: the method's, or none where it returns an error.
abbrev pub Refines :
    ℕ → Method → Option Error → List Repository.Order → List Repository.Order → Type 0
Refines time m none os os' = Meets time m os os'
Refines time m (some e) os os' = os' ≡ os

-- With a database that serves every call, a storage method refines its operation on the abstract order
-- book. Where it returns an error the rows stay. Where it returns none, AddOrder has entered an order
-- that was not there, UpdateOrderStatus has set the status of one that was, AddReturn that of an issued
-- one of the user, DeleteOrder has removed it, each leaving every other entry alone; IssueOrders has issued
-- exactly those orders of its list that are the user's, are received and whose storage period is not over at
-- the time that the clock gives, AcceptReturns has returned exactly those of its list that are the user's,
-- are issued and whose return period is not over then, each leaving every other entry alone.
pub perform-Refines :
    (env : Env)
    → IsServing env
    → (m : Method) (w : World)
    → Refines (env.clock w.readings) m (perform env m w).0 w.db.orders (perform env m w).1.db.orders
perform-Refines env serving m w =
    by_outcome (perform env m w).0 (perform-Met env serving w m)
      (λ e q. ap (λ t. t.orders) (perform_error-Frozen env m w {e = e} q).0)
  where
    by_outcome :
        (r : Option Error)
        → (r ≡ none → Meets (env.clock w.readings) m w.db.orders (perform env m w).1.db.orders)
        → ((e : Error) → r ≡ some e → (perform env m w).1.db.orders ≡ w.db.orders)
        → Refines (env.clock w.readings) m r w.db.orders (perform env m w).1.db.orders
    by_outcome none met same = met refl
    by_outcome (some e) met same = same e refl
