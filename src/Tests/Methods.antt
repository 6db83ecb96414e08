-- ===== src/Tests/Methods.antt =====
-- The storage methods on two orders.
use ozon_final.Base.{◌≡◌, refl, inl, inr, Bool-cases, some, List, [], ◌∷◌, ◌==◌, eq_iff, arith}
use ozon_final.Errors.{text, wrap, ok}
use ozon_final.World.{Env, World, Tables}
use ozon_final.World
use ozon_final.Postgres
use ozon_final.Postgres.Orders.{
  create_tx, insert_order, find_order, update_tx, update_order, update_rows, get_by_id_tx,
}
use ozon_final.Postgres.Returns.{create_history_tx, insert_history, create_return_tx, insert_return}
use ozon_final.Postgres.Outbox.{create_task_tx, insert_task, find_task}
use mathlib.Core.Path.{subst}
use ozon_final.Postgres.Returns.Status.{last_status}
use ozon_final.Storage
use ozon_final.Storage.{Return}
use ozon_final.Storage.Orders
use ozon_final.Storage.Bulk
use ozon_final.Storage.Calls.{Method, perform, perform_all}
use ozon_final.Storage.Calls
use ozon_final.Storage.Rollback.{perform_error-Frozen}
use ozon_final.Storage.Tracked.{Tracked}
use ozon_final.Storage.Invariants.{perform_all-Tracked}
use ozon_final.Storage.Serving.{IsServing}
use ozon_final.Storage.Committed.{IsHonest}
use ozon_final.Storage.Coherence.{IsStable, InSync}
use ozon_final.Storage.Sync.{perform_all-InSync}
use ozon_final.Storage.Moves.{Moves, add_return-Moves, issue_orders-Moves, accept_returns-Moves}
use ozon_final.Storage.Silent.{add_order-Silent}
use ozon_final.Storage.Logged.{Logged}
use ozon_final.Storage.Audit.{add_order_body-logs, change_status-logs}
use ozon_final.Base.Dict.{lookup}
use ozon_final.Tests.{calm, refusing, two, given, fresh, tables, received}

-- A second order with the id "a" violates the primary key.
perform_error-Frozen_example :
    ((perform calm (Calls.add_order given) two).1.db ≡ tables)
    × ((perform calm (Calls.add_order given) two).1.cache ≡ ("a", received) ∷ [])
unfolding perform Orders.add_order Storage.in_transaction Orders.add_order_body Postgres.begin_tx
    create_tx insert_order find_order Postgres.exec World.◌>>=◌ World.map_error
perform_error-Frozen_example =
    perform_error-Frozen calm (Calls.add_order given) two
      {e = wrap "failed to add order" (text "violated")} refl

abbrev calls : List Method
calls =
    Calls.add_order fresh
    ∷ Calls.issue_orders "u" ("a" ∷ "a" ∷ "x" ∷ [])
    ∷ Calls.accept_returns "u" ("b" ∷ [])
    ∷ Calls.delete_order "c"
    ∷ []

pub tables-Tracked : Tracked tables
unfolding find_order last_status
tables-Tracked = record {
  at = λ id o e. elim (Bool-cases ("a" == id)) [
    | inl same ↦
        subst
          (λ k. find_order k tables.orders ≡ some o → last_status k tables.history ≡ some o.status)
          ((eq_iff "a" id).0 same) (λ k. ground (arith, k)) e
    | inr other ↦ ground (arith, e, other)
  ];
}

perform_all-Tracked_example : Tracked (perform_all calm calls two).db
perform_all-Tracked_example = perform_all-Tracked calm calls two tables-Tracked

pub calm-IsServing : IsServing calm
calm-IsServing = record { always = λ n. refl }

pub calm-IsHonest : IsHonest calm
calm-IsHonest = record { never_lost = λ n m e. cc }

pub calm-IsStable : IsStable calm
calm-IsStable = record { stored_again = λ t. refl }

pub two-InSync : InSync calm two.db.orders two.cache
unfolding find_order lookup
two-InSync = record {
  stored = λ id o e. refl;
  coherent = λ id o e. ground (arith, e, eq_iff "a" id, eq_iff "b" id);
}

perform_all-InSync_example :
    InSync calm (perform_all calm calls two).db.orders (perform_all calm calls two).cache
perform_all-InSync_example =
    perform_all-InSync calm calm-IsHonest calm-IsStable calls two two-InSync

issue_orders-Moves_example :
    Moves "received" "issued" "u" tables.orders
      (Bulk.issue_orders calm "u" ("a" ∷ "b" ∷ []) two).1.db.orders
issue_orders-Moves_example = issue_orders-Moves calm two "u" ("a" ∷ "b" ∷ [])

accept_returns-Moves_example :
    Moves "issued" "returned" "u" tables.orders
      (Bulk.accept_returns calm "u" ("a" ∷ "b" ∷ []) two).1.db.orders
accept_returns-Moves_example = accept_returns-Moves calm two "u" ("a" ∷ "b" ∷ [])

abbrev return_of_b : Return
return_of_b = record { order_id = "b"; user_id = "u"; returned_at = 100 }

add_return-Moves_example :
    Moves "issued" "returned" "u" tables.orders (Orders.add_return calm return_of_b two).1.db.orders
add_return-Moves_example = add_return-Moves calm two return_of_b

add_order-Silent_example :
    ((Orders.add_order refusing fresh two).0 ≡ ok tt)
    × (((Orders.add_order refusing fresh two).1.db ≡ tables)
        × ((Orders.add_order refusing fresh two).1.cache ≡ ("a", received) ∷ []))
unfolding Orders.add_order_body World.map_error World.◌>>=◌ World.now World.new_id Postgres.begin_tx
    Postgres.exec Postgres.query Postgres.commit Postgres.rollback create_tx update_tx get_by_id_tx
    insert_order update_order update_rows find_order create_history_tx insert_history
    create_return_tx insert_return create_task_tx insert_task find_task Storage.create_audit_payload
    Orders.create_audit_task
add_order-Silent_example = add_order-Silent refusing fresh two "refused" refl refl refl

abbrev opened : World
opened = record two { work = tables }

add_order_body-logs_example :
    Logged [] "ORDER_CREATED" "c" "" "received" (Orders.add_order_body calm fresh opened).1.work
unfolding Orders.add_order_body World.map_error World.◌>>=◌ World.now World.new_id Postgres.begin_tx
    Postgres.exec Postgres.query Postgres.commit Postgres.rollback create_tx update_tx get_by_id_tx
    insert_order update_order update_rows find_order create_history_tx insert_history
    create_return_tx insert_return create_task_tx insert_task find_task Storage.create_audit_payload
    Orders.create_audit_task
add_order_body-logs_example = add_order_body-logs calm opened fresh refl

change_status-logs_example :
    Logged [] "STATUS_UPDATED" "a" "received" ""
      (Orders.change_status calm "a" "lost" received opened).1.work
unfolding Orders.change_status World.map_error World.◌>>=◌ World.now World.new_id Postgres.begin_tx
    Postgres.exec Postgres.query Postgres.commit Postgres.rollback create_tx update_tx get_by_id_tx
    insert_order update_order update_rows find_order create_history_tx insert_history
    create_return_tx insert_return create_task_tx insert_task find_task Storage.create_audit_payload
    Orders.create_audit_task
change_status-logs_example =
    change_status-logs calm opened "a" "lost" received {o' = Orders.changed received "lost" 100}
      refl
