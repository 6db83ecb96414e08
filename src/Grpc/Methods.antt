-- ===== src/Grpc/Methods.antt =====
-- The methods that `RegisterOrderServiceServer` serves, as one type of calls.
use ozon_final.Base.{ℕ, String, Bool, List}
use ozon_final.World.{Env, World}
use ozon_final.Grpc.{Reply}
use ozon_final.Grpc.Orders
use ozon_final.Grpc.Orders.{
  CreateOrderRequest, rpc_get_order, rpc_update_order_status, rpc_delete_order, rpc_add_return,
}
use ozon_final.Grpc.Lists
use ozon_final.Grpc.Lists.{rpc_get_order_history}
use ozon_final.Grpc.Bulk.{rpc_issue_orders, rpc_accept_returns}

pub data Request : Type 0 where
  create_order : CreateOrderRequest → Request
  get_order : String → Request
  update_order_status : String → String → Request
  delete_order : String → Request
  list_user_orders : String → ℕ → Bool → Request
  add_return : String → String → Request
  list_returns : ℕ → ℕ → Request
  issue_orders accept_returns : String → List String → Request
  get_order_history : String → Request

-- The state after a reply.
abbrev after : {A : Type 0} → Reply A × World → World
after (r, w) = w

-- The state after a call, whatever is replied.
unfoldable pub serve_rpc : Env → Request → World → World
serve_rpc env (create_order r) w = after (Orders.create_order env r w)
serve_rpc env (get_order id) w = after (rpc_get_order env id w)
serve_rpc env (update_order_status id status) w = after (rpc_update_order_status env id status w)
serve_rpc env (delete_order id) w = after (rpc_delete_order env id w)
serve_rpc env (list_user_orders user last_n active) w =
    after (Lists.list_user_orders env user last_n active w)
serve_rpc env (add_return order user) w = after (rpc_add_return env order user w)
serve_rpc env (list_returns page limit) w = after (Lists.list_returns env page limit w)
serve_rpc env (issue_orders user ids) w = after (rpc_issue_orders env user ids w)
serve_rpc env (accept_returns user ids) w = after (rpc_accept_returns env user ids w)
serve_rpc env (get_order_history id) w = after (rpc_get_order_history env id w)
