-- ===== src/Storage/Orders.antt =====
-- The methods of internal/storage/filestorage.go on one order: `AddOrder`, `GetOrder`,
-- `UpdateOrderStatus`, `DeleteOrder`, `AddReturn`.
use Prim.Native.String.{◌++◌}
use ozon_final.Base.{
  ℕ, ◌-◌, ◌*◌, String, not, Option, none, some, [], ◌∷◌, ltb, if◌then◌else◌, ◌==◌,
}
use ozon_final.Base.Dict.{Dict}
use ozon_final.Errors.{Error, text, wrap, ok, is_not_found}
use ozon_final.Repository
use ozon_final.Repository.{OutboxTask, new_return, new_history, new_task}
use ozon_final.World.{Env, Action, pure, raise, ◌>>=◌, ◌>>◌, map_error, now}
use ozon_final.Cache.{cache_set, cache_delete}
use ozon_final.Cache
use ozon_final.Postgres.{begin_tx}
use ozon_final.Postgres.Orders.{create_tx, get_by_id, get_by_id_tx, update_tx, delete_tx}
use ozon_final.Postgres.Returns.{create_return_tx, create_history_tx}
use ozon_final.Postgres.Outbox.{create_task_tx}
use ozon_final.Storage.{Order, Return, to_row, of_row, create_audit_payload, in_transaction}

-- `48*time.Hour`
abbrev pub return_period : ℕ
return_period = 48 * 3600 * 1000000000

-- The order in its new status, as the methods change it before they write it.
abbrev pub changed : Repository.Order → String → ℕ → Repository.Order
changed o status at = record o { status = status; updated_at = at }

module _ (env : Env) where
  abbrev pub begin_wrapped : String → Action (Unit {0})
  begin_wrapped pre = map_error (wrap pre) (begin_tx env)

  abbrev pub begin : Action (Unit {0})
  begin = begin_wrapped "failed to begin transaction"

  -- The audit payload and the outbox task that carries it.
  unfoldable pub create_audit_task :
      String → String → String → Option (Dict String) → Action (Unit {0})
  create_audit_task pre action id details = do
    payload ← create_audit_payload env action "order" id details
    map_error (wrap pre) (create_task_tx env (new_task "audit_logs" payload))

  unfoldable pub add_order_body : Order → Action (Unit {0})
  add_order_body o = do
    map_error (wrap "failed to add order") (create_tx env (to_row o))
    changed_at ← now env
    map_error (wrap "failed to add order history entry")
        (create_history_tx env (new_history o.id o.status changed_at))
    create_audit_task "failed to create outbox task for order creation" "ORDER_CREATED" o.id
        (some (("status", o.status) ∷ []))

  unfoldable pub add_order : Order → Action (Unit {0})
  add_order o = in_transaction env begin (λ _. cache_set (to_row o)) (add_order_body o)

  abbrev pub cached_order : String → Option Repository.Order → Action Order
  cached_order id (some o) = pure (of_row o)
  cached_order id none = do
    o ←
        map_error
          (λ e.
            if is_not_found e then text "order not found" else wrap "failed to get order from DB" e)
          (get_by_id env id)
    λ w. (ok (of_row o), cache_set o w)

  unfoldable pub get_order : String → Action Order
  get_order id w = cached_order id (Cache.get id w.cache) w

  -- The two texts of a failed `GetByIDTx`
  abbrev pub lookup_error : String → String → Error → Error
  lookup_error id for_what e =
      if is_not_found e
      then text ("order " ++ (id ++ " not found"))
      else wrap ("failed to get order " ++ (id ++ for_what)) e

  unfoldable pub change_status : String → String → Repository.Order → Action Repository.Order
  change_status id status o = do
    at ← now env
    map_error (wrap ("failed to update order " ++ id)) (update_tx env (changed o status at))
    map_error (wrap ("failed to add order history entry for " ++ id))
        (create_history_tx env (new_history id status at))
    create_audit_task "failed to create outbox task for status update" "STATUS_UPDATED" id
        (some (("old_status", o.status) ∷ ("new_status", status) ∷ []))
    pure (changed o status at)

  unfoldable pub update_status_body : String → String → Action Repository.Order
  update_status_body id status = do
    o ← map_error (lookup_error id "") (get_by_id_tx env id)
    if o.status == status then pure o else change_status id status o

  -- The body's order serves the deferred function; the method returns the error alone.
  unfoldable pub update_order_status : String → String → Action (Unit {0})
  update_order_status id status = do
    in_transaction env begin cache_set (update_status_body id status)
    pure tt

  unfoldable pub delete_order_body : String → Action (Unit {0})
  delete_order_body id = do
    map_error (wrap "failed to delete order") (delete_tx env id)
    create_audit_task "failed to create outbox task for order deletion" "ORDER_DELETED" id none

  unfoldable pub delete_order : String → Action (Unit {0})
  delete_order id = in_transaction env begin (λ _. cache_delete id) (delete_order_body id)

  -- The order is marked and the return recorded, once the checks have passed.
  unfoldable pub record_return : Return → Repository.Order → Action (Unit {0})
  record_return ret o = do
    at ← now env
    map_error (wrap ("failed to update order " ++ (ret.order_id ++ " status to returned")))
        (update_tx env (changed o "returned" at))
    returned_at ← now env
    map_error (wrap ("failed to create return entry for order " ++ ret.order_id))
        (create_return_tx env (new_return ret.order_id ret.user_id returned_at))
    map_error (wrap ("failed to add order history entry for return " ++ ret.order_id))
        (create_history_tx env (new_history ret.order_id "returned" at))
    create_audit_task "failed to create outbox task for order return" "ORDER_RETURNED" ret.order_id
        (some
          (("user_id", ret.user_id) ∷ ("old_status", o.status) ∷ ("new_status", "returned") ∷ []))

  unfoldable pub check_return : Return → Repository.Order → Action (Unit {0})
  check_return ret o =
      if not (o.recipient_id == ret.user_id)
      then raise (text ("order " ++ (ret.order_id ++ (" does not belong to user " ++ ret.user_id))))
      else if not (o.status == "issued")
      then raise (
          text (
            "order "
            ++ (ret.order_id ++ (" not in 'issued' status (current: " ++ (o.status ++ ")")))))
      else do
        at ← now env
        if ltb return_period (at - o.updated_at)
            then raise (text ("return period expired for order " ++ ret.order_id))
            else pure tt

  unfoldable pub add_return_body : Return → Action (Unit {0})
  add_return_body ret = do
    o ← map_error (lookup_error ret.order_id " for return") (get_by_id_tx env ret.order_id)
    check_return ret o
    record_return ret o

  unfoldable pub add_return : Return → Action (Unit {0})
  add_return ret = in_transaction env begin (λ _. cache_delete ret.order_id) (add_return_body ret)
