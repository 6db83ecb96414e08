-- ===== src/Tests/Batches.antt =====
-- The bulk methods on two orders.
use ozon_final.Base.{◌≡◌, refl, [], ◌∷◌}
use ozon_final.World.{Env, World, Tables}
use ozon_final.World
use ozon_final.Cache
use ozon_final.Postgres
use ozon_final.Postgres.Orders.{
  create_tx, insert_order, find_order, update_tx, update_order, update_rows, get_by_id_tx,
}
use ozon_final.Postgres.Returns.{create_history_tx, insert_history, create_return_tx, insert_return}
use ozon_final.Postgres.Outbox.{create_task_tx, insert_task, find_task}
use ozon_final.Storage
use ozon_final.Storage.{Return}
use ozon_final.Storage.Orders
use ozon_final.Storage.Bulk
use ozon_final.Storage.Bulk.Results.{ids_of, ids_of-issue_orders}
use ozon_final.Tests.Methods.{calm-IsHonest, calm-IsServing}
use ozon_final.Storage.Rows.Batches.{issuable, acceptable}
use ozon_final.Storage.Bulk.Exact.{After, issue_orders-After, accept_returns-After}
use ozon_final.Storage.Bulk.Audited.{Audited, issue_orders-Audited}
use ozon_final.Storage.Bulk.Sound.{Sound, issue_orders-Sound, accept_returns-Sound}
use ozon_final.Base.Dict.{lookup, insert, remove}
use ozon_final.Cache.{is_active_status}
use ozon_final.Tests.{calm, two, tables}

ids_of-issue_orders_example :
    ids_of (Bulk.issue_orders calm "u" ("a" ∷ "x" ∷ "a" ∷ []) two).0.0 ≡ "a" ∷ "x" ∷ "a" ∷ []
unfolding Bulk.issue_orders Bulk.issue_one Bulk.check_issue World.map_error World.◌>>=◌ World.now
    World.new_id Postgres.begin_tx Postgres.exec Postgres.query Postgres.commit Postgres.rollback
    create_tx update_tx get_by_id_tx insert_order update_order update_rows find_order
    create_history_tx insert_history create_return_tx insert_return create_task_tx insert_task
    find_task Storage.create_audit_payload Orders.create_audit_task Bulk.bulk Bulk.end_bulk
    Bulk.process_all Bulk.◌>>=◌ Bulk.fetch Bulk.attempt Bulk.insert_tasks Bulk.payload_of
    Bulk.fail_all insert lookup remove Cache.delete Cache.set is_active_status
ids_of-issue_orders_example = ids_of-issue_orders calm "u" ("a" ∷ "x" ∷ "a" ∷ []) two refl

issue_orders-Sound_example :
    Sound "issued"
      (Bulk.issue_orders calm "u" ("a" ∷ "x" ∷ "a" ∷ []) two).0.0
      (Bulk.issue_orders calm "u" ("a" ∷ "x" ∷ "a" ∷ []) two).1.db.orders
unfolding Bulk.issue_orders Bulk.issue_one Bulk.check_issue World.map_error World.◌>>=◌ World.now
    World.new_id Postgres.begin_tx Postgres.exec Postgres.query Postgres.commit Postgres.rollback
    create_tx update_tx get_by_id_tx insert_order update_order update_rows find_order
    create_history_tx insert_history create_return_tx insert_return create_task_tx insert_task
    find_task Storage.create_audit_payload Orders.create_audit_task Bulk.bulk Bulk.end_bulk
    Bulk.process_all Bulk.◌>>=◌ Bulk.fetch Bulk.attempt Bulk.insert_tasks Bulk.payload_of
    Bulk.fail_all insert lookup remove Cache.delete Cache.set is_active_status
issue_orders-Sound_example = issue_orders-Sound calm "u" ("a" ∷ "x" ∷ "a" ∷ []) two refl

accept_returns-Sound_example :
    Sound "returned"
      (Bulk.accept_returns calm "u" ("b" ∷ "x" ∷ []) two).0.0
      (Bulk.accept_returns calm "u" ("b" ∷ "x" ∷ []) two).1.db.orders
unfolding Bulk.accept_returns Bulk.accept_one Bulk.check_accept World.map_error World.◌>>=◌
    World.now World.new_id Postgres.begin_tx Postgres.exec Postgres.query Postgres.commit
    Postgres.rollback create_tx update_tx get_by_id_tx insert_order update_order update_rows
    find_order create_history_tx insert_history create_return_tx insert_return create_task_tx
    insert_task find_task Storage.create_audit_payload Orders.create_audit_task Bulk.bulk
    Bulk.end_bulk Bulk.process_all Bulk.◌>>=◌ Bulk.fetch Bulk.attempt Bulk.insert_tasks
    Bulk.payload_of Bulk.fail_all insert lookup remove Cache.delete Cache.set is_active_status
accept_returns-Sound_example = accept_returns-Sound calm "u" ("b" ∷ "x" ∷ []) two refl

issue_orders-Audited_example :
    Audited "ORDER_ISSUED"
      (Bulk.issue_orders calm "u" ("a" ∷ "x" ∷ "a" ∷ []) two).0.0
      two.db.outbox
      (Bulk.issue_orders calm "u" ("a" ∷ "x" ∷ "a" ∷ []) two).1.db.outbox
unfolding Bulk.issue_orders Bulk.issue_one Bulk.check_issue World.map_error World.◌>>=◌ World.now
    World.new_id Postgres.begin_tx Postgres.exec Postgres.query Postgres.commit Postgres.rollback
    create_tx update_tx get_by_id_tx insert_order update_order update_rows find_order
    create_history_tx insert_history create_return_tx insert_return create_task_tx insert_task
    find_task Storage.create_audit_payload Orders.create_audit_task Bulk.bulk Bulk.end_bulk
    Bulk.process_all Bulk.◌>>=◌ Bulk.fetch Bulk.attempt Bulk.insert_tasks Bulk.payload_of
    Bulk.fail_all insert lookup remove Cache.delete Cache.set is_active_status
issue_orders-Audited_example =
    issue_orders-Audited calm calm-IsHonest "u" ("a" ∷ "x" ∷ "a" ∷ []) two refl

issue_orders-After_example :
    After calm "issued"
      (calm.clock two.readings)
      (issuable "u" (calm.clock two.readings))
      tables.orders
      ("a" ∷ "x" ∷ "a" ∷ [])
      (Bulk.issue_orders calm "u" ("a" ∷ "x" ∷ "a" ∷ []) two).1.db.orders
unfolding Bulk.issue_orders Bulk.issue_one Bulk.check_issue World.map_error World.◌>>=◌ World.now
    World.new_id Postgres.begin_tx Postgres.exec Postgres.query Postgres.commit Postgres.rollback
    create_tx update_tx get_by_id_tx insert_order update_order update_rows find_order
    create_history_tx insert_history create_return_tx insert_return create_task_tx insert_task
    find_task Storage.create_audit_payload Orders.create_audit_task Bulk.bulk Bulk.end_bulk
    Bulk.process_all Bulk.◌>>=◌ Bulk.fetch Bulk.attempt Bulk.insert_tasks Bulk.payload_of
    Bulk.fail_all insert lookup remove Cache.delete Cache.set is_active_status
issue_orders-After_example =
    issue_orders-After calm calm-IsServing "u" ("a" ∷ "x" ∷ "a" ∷ []) two refl

accept_returns-After_example :
    After calm "returned"
      (calm.clock two.readings)
      (acceptable "u" (calm.clock two.readings))
      tables.orders
      ("b" ∷ "x" ∷ [])
      (Bulk.accept_returns calm "u" ("b" ∷ "x" ∷ []) two).1.db.orders
unfolding Bulk.accept_returns Bulk.accept_one Bulk.check_accept World.map_error World.◌>>=◌
    World.now World.new_id Postgres.begin_tx Postgres.exec Postgres.query Postgres.commit
    Postgres.rollback create_tx update_tx get_by_id_tx insert_order update_order update_rows
    find_order create_history_tx insert_history create_return_tx insert_return create_task_tx
    insert_task find_task Storage.create_audit_payload Orders.create_audit_task Bulk.bulk
    Bulk.end_bulk Bulk.process_all Bulk.◌>>=◌ Bulk.fetch Bulk.attempt Bulk.insert_tasks
    Bulk.payload_of Bulk.fail_all insert lookup remove Cache.delete Cache.set is_active_status
accept_returns-After_example =
    accept_returns-After calm calm-IsServing "u" ("b" ∷ "x" ∷ []) two refl
