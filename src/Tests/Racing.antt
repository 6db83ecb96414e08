-- ===== src/Tests/Racing.antt =====
-- Two calls side by side: `UpdateOrderStatus` and `DeleteOrder` of one order commit in this order and
-- update the cache in the other.
use ozon_final.Base.{◌≡◌, refl, none, [], ◌∷◌, keep}
use ozon_final.Base.Dict.{lookup, insert, remove}
use ozon_final.Errors.{ok}
use ozon_final.World.{World}
use ozon_final.World
use ozon_final.Cache
use ozon_final.Postgres
use ozon_final.Postgres.Orders.{
  find_order, get_by_id, update_tx, delete_tx, get_by_id_tx, update_order, update_rows,
  delete_order,
}
use ozon_final.Postgres.Returns.{create_history_tx, insert_history}
use ozon_final.Postgres.Outbox.{create_task_tx, insert_task, find_task}
use ozon_final.Storage
use ozon_final.Storage.{of_row, to_row}
use ozon_final.Storage.Orders
use ozon_final.Storage.Orders.{get_order, changed}
use ozon_final.Storage.Calls.{perform}
use ozon_final.Storage.Calls
use ozon_final.Storage.Updates.{apply, updates}
use ozon_final.Storage.Races.{Shared, quiet, write, finish, Steps, here, next, Was}
use ozon_final.Storage.Races.Past.{get_order-Was}
use ozon_final.Tests.{calm, received, two}
use ozon_final.Tests.Methods.{calm-IsHonest, calm-IsStable, two-InSync}

abbrev written : Shared
written = record {
  world = record (perform calm (Calls.update_order_status "a" "issued") two).1 {
    cache = two.cache;
  };
  pending = updates calm (Calls.update_order_status "a" "issued") two ∷ [];
}

abbrev deleted : Shared
deleted = record {
  world = record (perform calm (Calls.delete_order "a") written.world).1 { cache = two.cache };
  pending = updates calm (Calls.delete_order "a") written.world ∷ written.pending;
}

abbrev dropped : Shared
dropped = record {
  world = record deleted.world {
    cache = apply (updates calm (Calls.delete_order "a") written.world) two.cache;
  };
  pending = written.pending;
}

abbrev ended : Shared
ended = record {
  world = record dropped.world {
    cache = apply (updates calm (Calls.update_order_status "a" "issued") two) dropped.world.cache;
  };
  pending = [];
}

race : Steps calm (quiet two) ended
race =
    next
      (next
        (next (next here (write (Calls.update_order_status "a" "issued")))
          (write (Calls.delete_order "a")))
        (finish [] written.pending (updates calm (Calls.delete_order "a") written.world) refl))
      (finish [] [] (updates calm (Calls.update_order_status "a" "issued") two) refl)

-- The order is gone, and `GetOrder` returns it.
stale :
    (find_order "a" ended.world.db.orders ≡ none)
    × ((get_order calm "a" ended.world).0 ≡ ok (of_row (changed received "issued" 100)))
unfolding get_order perform updates apply find_order Cache.get Cache.set Cache.delete lookup insert
    remove Cache.is_active_status Orders.update_order_status Orders.update_status_body
    Orders.change_status Orders.delete_order Orders.delete_order_body Orders.create_audit_task
    Storage.in_transaction Storage.close_tx Storage.create_audit_payload World.map_error World.◌>>=◌
    World.now World.new_id Postgres.begin_tx Postgres.exec Postgres.query Postgres.commit
    Postgres.rollback update_tx delete_tx get_by_id_tx get_by_id update_order update_rows
    delete_order keep create_history_tx insert_history create_task_tx insert_task find_task
stale = (refl, refl)

get_order-Was_example : Was calm race "a" (to_row (of_row (changed received "issued" 100)))
get_order-Was_example =
    get_order-Was calm calm-IsHonest calm-IsStable two race two-InSync "a" stale.1
