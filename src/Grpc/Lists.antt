-- ===== src/Grpc/Lists.antt =====
-- The methods of internal/grpcserver/server.go that list.
use Prim.Native.String.{◌++◌}
use ozon_final.Base.{ℕ, String, Bool, List, map, if◌then◌else◌, ◌==◌}
use ozon_final.Errors.{message}
use ozon_final.World.{Env}
use ozon_final.Storage.Queries.{get_user_orders, get_returns, get_order_history}
use ozon_final.Rest.Lists.{is_not_positive}
use ozon_final.Grpc.{
  invalid_argument, internal, Rpc, reply, fail, call, int_of_int32, Order, Return, HistoryEntry,
  to_proto_order, to_proto_return, to_proto_history_entry,
}
use ozon_final.Grpc.Orders.{not_found_or_internal}

-- `if n <= 0 { n = default }`
abbrev pub default_to : ℕ → ℕ → ℕ
default_to default n = if is_not_positive n then default else n

module _ (env : Env) where
  unfoldable pub list_user_orders : String → ℕ → Bool → Rpc (List Order)
  list_user_orders user last_n active_only =
      if user == ""
      then fail "list_user_orders" invalid_argument "user_id is required"
      else call (get_user_orders env user (int_of_int32 last_n) active_only)
          (λ os. reply (map to_proto_order os))
          (λ e. fail "list_user_orders" internal ("failed to list user orders: " ++ message e))

  unfoldable pub list_returns : ℕ → ℕ → Rpc (List Return)
  list_returns page limit =
      call (get_returns env (default_to 1 (int_of_int32 page)) (default_to 10 (int_of_int32 limit)))
        (λ rs. reply (map to_proto_return rs))
        (λ e. fail "list_returns" internal ("failed to list returns: " ++ message e))

  unfoldable pub rpc_get_order_history : String → Rpc (List HistoryEntry)
  rpc_get_order_history id =
      if id == ""
      then fail "get_order_history" invalid_argument "order_id is required"
      else call (get_order_history env id) (λ hs. reply (map to_proto_history_entry hs))
          (not_found_or_internal "get_order_history" "history not found for order"
            "failed to get order history")
