-- ===== src/System/Rpc.antt =====
-- A call of the gRPC server, under an invariant that the storage keeps.
use ozon_final.Base.{ℕ, ◌+◌, String, Bool, true, false, Option, List, [], ◌∷◌, arith, if◌then◌else◌}
use ozon_final.Errors.{Error}
use ozon_final.World.{Env, World}
use ozon_final.Packager.{Packager}
use ozon_final.Storage
use ozon_final.Storage.Bulk.{BulkResult}
use ozon_final.Storage.Bulk
use ozon_final.Storage.Calls
use ozon_final.Storage.Calls.{perform}
use ozon_final.Grpc.{count_error}
use ozon_final.Grpc.Orders
use ozon_final.Grpc.Orders.{
  CreateOrderRequest, created_order, count_returned, store_created, check_created, rpc_get_order,
  rpc_update_order_status, rpc_delete_found, rpc_delete_order, rpc_add_return,
}
use ozon_final.Grpc.Lists
use ozon_final.Grpc.Lists.{rpc_get_order_history}
use ozon_final.Grpc.Bulk.{
  count_issued, count_results, reply_bulk, rpc_issue_orders, rpc_accept_returns,
}
use ozon_final.Grpc.Methods.{
  Request, create_order, get_order, update_order_status, delete_order, list_user_orders, add_return,
  list_returns, issue_orders, accept_returns, get_order_history, serve_rpc,
}
use ozon_final.System.Views.{
  View, Of, IsKept, get_user_orders-Keeps, get_returns-Keeps, get_order_history-Keeps,
  add_order-Keeps, update_order_status-Keeps, delete_order-Keeps, add_return-Keeps,
}

module _ (env : Env) (J : View) (k : IsKept env J) where
  store_created-Of :
      (r : CreateOrderRequest) (p : Packager) (w : World)
      → Of J w
      → Of J (store_created env r p w).1
  unfolding store_created
  store_created-Of r p w h =
      let order : Storage.Order =
        created_order r p (env.clock w.readings) (env.clock (w.readings + 1)) in
      ground (arith, (add_order-Keeps k order).at (record w { readings = w.readings + 1 + 1 }) h)

  check_created-Of : (r : CreateOrderRequest) (w : World) → Of J w → Of J (check_created env r w).1
  unfolding check_created
  check_created-Of r w h = grind (arith, store_created-Of)

  create_order-Of :
      (r : CreateOrderRequest) (w : World) → Of J w → Of J (Orders.create_order env r w).1
  unfolding Orders.create_order
  create_order-Of r w h = grind (arith, check_created-Of)

  rpc_get_order-Of : (id : String) (w : World) → Of J w → Of J (rpc_get_order env id w).1
  unfolding rpc_get_order
  rpc_get_order-Of id w h = ground (arith, k.reads id w h)

  rpc_update_order_status-Of :
      (id status : String) (w : World) → Of J w → Of J (rpc_update_order_status env id status w).1
  unfolding rpc_update_order_status
  rpc_update_order_status-Of id status w h =
      ground (arith, (update_order_status-Keeps k id status).at w h)

  rpc_delete_found-Of :
      (id : String) (o : Storage.Order) (w : World) → Of J w → Of J (rpc_delete_found env id o w).1
  unfolding rpc_delete_found
  rpc_delete_found-Of id o w h =
      ground (arith, (delete_order-Keeps k id).at (record w { readings = w.readings + 1 }) h)

  rpc_delete_order-Of : (id : String) (w : World) → Of J w → Of J (rpc_delete_order env id w).1
  unfolding rpc_delete_order
  rpc_delete_order-Of id w h = grind (arith, rpc_delete_found-Of, k.reads id w h)

  rpc_add_return-Of :
      (order user : String) (w : World) → Of J w → Of J (rpc_add_return env order user w).1
  unfolding rpc_add_return
  rpc_add_return-Of order user w h =
      let ret : Storage.Return = record {
        order_id = order;
        user_id = user;
        returned_at = env.clock w.readings;
      } in
      ground (arith, (add_return-Keeps k ret).at (record w { readings = w.readings + 1 }) h)

  -- Counting the results of a batch writes the metrics only.
  count_results-Of :
      (success : World → World) (label : String)
      → ((w : World) → Of J w → Of J (success w))
      → (rs : List BulkResult) (w : World) → Of J w
      → Of J (count_results success label rs w)
  unfolding count_results
  count_results-Of success label ks [] w h = h
  count_results-Of success label ks (r ∷ rs) w h =
      count_results-Of success label ks rs _ (by_test r.success (ks w h))
    where
      by_test : (b : Bool) → Of J (success w) → Of J (if b then success w else count_error label w)
      by_test true h' = h'
      by_test false h' = h

  reply_bulk-Of :
      (success : World → World) (label pre : String)
      → ((w : World) → Of J w → Of J (success w))
      → (r : (List BulkResult × Option Error) × World) → Of J r.1
      → Of J (reply_bulk success label pre r).1
  unfolding reply_bulk
  reply_bulk-Of success label pre ks ((rs, e), w) h = count_results-Of success label ks rs w h

  rpc_issue_orders-Of :
      (user : String) (ids : List String) (w : World)
      → Of J w
      → Of J (rpc_issue_orders env user ids w).1
  unfolding rpc_issue_orders perform
  rpc_issue_orders-Of user ids w h = ground (
    arith,
    reply_bulk-Of count_issued "issue_orders" "error processing bulk issue" (λ w h. h)
        (Bulk.issue_orders env user ids w) (k.writes (Calls.issue_orders user ids) w h),
  )

  rpc_accept_returns-Of :
      (user : String) (ids : List String) (w : World)
      → Of J w
      → Of J (rpc_accept_returns env user ids w).1
  unfolding rpc_accept_returns perform
  rpc_accept_returns-Of user ids w h = ground (
    arith,
    reply_bulk-Of count_returned "accept_returns" "error processing bulk return acceptance"
        (λ w h. h) (Bulk.accept_returns env user ids w)
        (k.writes (Calls.accept_returns user ids) w h),
  )

  list_user_orders-Of :
      (user : String) (n : ℕ) (active : Bool) (w : World)
      → Of J w
      → Of J (Lists.list_user_orders env user n active w).1
  unfolding Lists.list_user_orders
  list_user_orders-Of user n active w h = grind (arith, get_user_orders-Keeps env J)

  list_returns-Of :
      (page limit : ℕ) (w : World) → Of J w → Of J (Lists.list_returns env page limit w).1
  unfolding Lists.list_returns
  list_returns-Of page limit w h = grind (arith, get_returns-Keeps env J)

  rpc_get_order_history-Of :
      (id : String) (w : World) → Of J w → Of J (rpc_get_order_history env id w).1
  unfolding rpc_get_order_history
  rpc_get_order_history-Of id w h = ground (arith, (get_order_history-Keeps env J id).at w h)

  pub serve_rpc-Of : (r : Request) (w : World) → Of J w → Of J (serve_rpc env r w)
  unfolding serve_rpc
  serve_rpc-Of (create_order r) = create_order-Of r
  serve_rpc-Of (get_order id) = rpc_get_order-Of id
  serve_rpc-Of (update_order_status id status) = rpc_update_order_status-Of id status
  serve_rpc-Of (delete_order id) = rpc_delete_order-Of id
  serve_rpc-Of (list_user_orders user n active) = list_user_orders-Of user n active
  serve_rpc-Of (add_return order user) = rpc_add_return-Of order user
  serve_rpc-Of (list_returns page limit) = list_returns-Of page limit
  serve_rpc-Of (issue_orders user ids) = rpc_issue_orders-Of user ids
  serve_rpc-Of (accept_returns user ids) = rpc_accept_returns-Of user ids
  serve_rpc-Of (get_order_history id) = rpc_get_order_history-Of id
