-- ===== src/Grpc/Orders.antt =====
-- The methods of internal/grpcserver/server.go on one order.
use Prim.Native.String.{◌++◌}
use ozon_final.Base.{
  ℕ, ◌+◌, String, Bool, not, ◌||◌, Option, none, some, ltb, eqb, if◌then◌else◌, ◌==◌,
}
use ozon_final.Base.Text.{contains}
use ozon_final.Errors.{Error, message}
use ozon_final.World.{Env, World, lift}
use ozon_final.Packager.{get_packager, validate_weight, adjust_price, get_type, Packager}
use ozon_final.Storage
use ozon_final.Storage.Orders.{add_order, get_order, update_order_status, delete_order, add_return}
use ozon_final.Rest.Orders.{is_return_refusal}
use ozon_final.Grpc.{
  invalid_argument, already_exists, not_found, failed_precondition, internal, Rpc, reply, fail,
  call, int_of_int32, Order, to_proto_order,
}

-- The time stamp may be missing; `price` is the pattern of an `int32`.
pub record CreateOrderRequest : Type 0 where
  pub id : String
  pub recipient_id : String
  pub storage_until : Option ℕ
  pub wrapper_type : String
  pub price : ℕ
  pub weight : ℕ
  pub with_additional_membrane : Bool

-- `AsTime`: a missing time stamp is the Unix epoch, in nanoseconds since Go's zero time.
abbrev pub unix_epoch : ℕ
unix_epoch = 62135596800000000000

unfoldable pub as_time : Option ℕ → ℕ
as_time none = unix_epoch
as_time (some t) = t

abbrev pub created_order : CreateOrderRequest → Packager → ℕ → ℕ → Storage.Order
created_order r p created_at updated_at = record {
  id = r.id;
  recipient_id = r.recipient_id;
  storage_until = as_time r.storage_until;
  status = "received";
  price = adjust_price p (int_of_int32 r.price);
  weight = r.weight;
  wrapper = get_type p;
  created_at = created_at;
  updated_at = updated_at;
}

abbrev count_created : World → World
count_created w = record w {
  metrics = record w.metrics { orders_created = w.metrics.orders_created + 1 };
}

abbrev pub count_returned : World → World
count_returned w = record w {
  metrics = record w.metrics { returns_accepted = w.metrics.returns_accepted + 1 };
}

-- The time of the call, for a method that goes on.
abbrev pub rpc_at_now : {A : Type 0} → Env → (ℕ → Rpc A) → Rpc A
rpc_at_now env f w = f (env.clock w.readings) (record w { readings = w.readings + 1 })

-- The status of a failed call of the storage, by its text.
abbrev pub not_found_or_internal : {A : Type 0} → String → String → String → Error → Rpc A
not_found_or_internal label missing broken e =
    if contains (message e) "not found"
    then fail label not_found (missing ++ (": " ++ message e))
    else fail label internal (broken ++ (": " ++ message e))

module _ (env : Env) where
  unfoldable pub store_created : CreateOrderRequest → Packager → Rpc String
  store_created r p = rpc_at_now env λ created_at. rpc_at_now env λ updated_at.
      call (add_order env (created_order r p created_at updated_at))
        (λ _ w. reply r.id (count_created w))
        (λ e.
          if contains (message e) "already exists"
          then fail "create_order" already_exists ("failed to create order: " ++ message e)
          else fail "create_order" internal ("failed to create order: " ++ message e))

  unfoldable pub check_created : CreateOrderRequest → Rpc String
  check_created r =
      call (lift (get_packager r.wrapper_type r.with_additional_membrane))
        (λ p.
          call (lift (validate_weight env p r.weight)) (λ _. store_created r p)
            (λ e. fail "create_order" invalid_argument ("Validation Failed: " ++ message e)))
        (λ e. fail "create_order" invalid_argument ("Error: " ++ message e))

  unfoldable pub create_order : CreateOrderRequest → Rpc String
  create_order r =
      if eqb (as_time r.storage_until) 0
      then fail "create_order" invalid_argument
          "storage_until is required and must be a valid timestamp"
      else rpc_at_now env λ at.
        if ltb (as_time r.storage_until) at
        then fail "create_order" invalid_argument "Error: storage period is in the past"
        else check_created r

  unfoldable pub rpc_get_order : String → Rpc Order
  rpc_get_order id =
      if id == ""
      then fail "get_order" invalid_argument "order_id is required"
      else call (get_order env id) (λ o. reply (to_proto_order o))
          (not_found_or_internal "get_order" "order not found" "failed to get order")

  unfoldable pub rpc_update_order_status : String → String → Rpc (Unit {0})
  rpc_update_order_status id status =
      if id == "" || status == ""
      then fail "update_order_status" invalid_argument "order_id and status are required"
      else call (update_order_status env id status) (λ _. reply tt)
          (not_found_or_internal "update_order_status" "order not found"
            "failed to update order status")

  unfoldable pub rpc_delete_found : String → Storage.Order → Rpc (Unit {0})
  rpc_delete_found id o =
      if not (o.status == "received")
      then fail "delete_order" failed_precondition "Cannot return: order not in 'received' status"
      else rpc_at_now env λ at.
        if ltb at o.storage_until
        then fail "delete_order" failed_precondition "Cannot return: storage period not expired"
        else call (delete_order env id) (λ _. reply tt)
            (not_found_or_internal "delete_order" "order not found" "failed to delete order")

  unfoldable pub rpc_delete_order : String → Rpc (Unit {0})
  rpc_delete_order id =
      if id == ""
      then fail "delete_order" invalid_argument "order_id is required"
      else call (get_order env id) (rpc_delete_found id) (
          not_found_or_internal "delete_order" "order not found"
            "failed to get order before deletion")

  unfoldable pub rpc_add_return : String → String → Rpc (Unit {0})
  rpc_add_return order user =
      if order == "" || user == ""
      then fail "add_return" invalid_argument "order_id and user_id are required"
      else rpc_at_now env λ at.
        call (add_return env (record { order_id = order; user_id = user; returned_at = at }))
          (λ _ w. reply tt (count_returned w))
          (λ e.
            if is_return_refusal (message e)
            then fail "add_return" failed_precondition ("failed to add return: " ++ message e)
            else fail "add_return" internal ("failed to process return: " ++ message e))
