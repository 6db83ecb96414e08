-- ===== src/System/Http.antt =====
-- A request to the HTTP server, under an invariant that the storage keeps.
use ozon_final.Base.{ℕ, ◌+◌, String, Option, none, some, List, [], ◌∷◌, arith}
use ozon_final.Errors.{Error}
use ozon_final.World.{Env, World}
use ozon_final.Packager.{Packager}
use ozon_final.Storage.{Order, Return}
use ozon_final.Storage.Bulk.{BulkResult}
use ozon_final.Storage.Bulk
use ozon_final.Storage.Calls
use ozon_final.Storage.Calls.{perform}
use ozon_final.Rest.{basic_auth}
use ozon_final.Rest.Orders.{
  CreateRequest, ReturnRequest, received_order, store_new_order, check_package, handle_create_order,
  handle_get_order, handle_update_order_status, delete_found, handle_delete_order,
  handle_add_return,
}
use ozon_final.Rest.Lists.{handle_list_orders, handle_list_returns, handle_order_history}
use ozon_final.Rest.Bulk.{BulkRequest, respond_bulk, handle_issue_orders, handle_accept_returns}
use ozon_final.Rest.Routes.{
  Request, Route, create_order, get_order, update_order_status, delete_order, list_orders,
  add_return, list_returns, issue_orders, accept_returns, order_history, Pattern, dispatch,
  path_value, serve_mux, serve_http,
}
use ozon_final.System.Views.{
  View, Of, IsKept, get_user_orders-Keeps, get_returns-Keeps, get_order_history-Keeps,
  validate_user-Keeps, add_order-Keeps, update_order_status-Keeps, delete_order-Keeps,
  add_return-Keeps,
}

module _ (env : Env) (J : View) (k : IsKept env J) where
  store_new_order-Of :
      (r : CreateRequest) (date : ℕ) (p : Packager) (w : World)
      → Of J w
      → Of J (store_new_order env r date p w).1
  unfolding store_new_order
  store_new_order-Of r date p w h =
      let order : Order =
        received_order r date p (env.clock w.readings) (env.clock (w.readings + 1)) in
      ground (arith, (add_order-Keeps k order).at (record w { readings = w.readings + 1 + 1 }) h)

  check_package-Of :
      (r : CreateRequest) (date : ℕ) (w : World) → Of J w → Of J (check_package env r date w).1
  unfolding check_package
  check_package-Of r date w h = grind (arith, store_new_order-Of)

  handle_create_order-Of :
      (body : Option CreateRequest) (w : World) → Of J w → Of J (handle_create_order env body w).1
  unfolding handle_create_order
  handle_create_order-Of none w h = h
  handle_create_order-Of (some r) w h = grind (arith, check_package-Of)

  delete_found-Of :
      (id : String) (o : Order) (w : World) → Of J w → Of J (delete_found env id o w).1
  unfolding delete_found
  delete_found-Of id o w h =
      ground (arith, (delete_order-Keeps k id).at (record w { readings = w.readings + 1 }) h)

  handle_delete_order-Of :
      (id : String) (w : World) → Of J w → Of J (handle_delete_order env id w).1
  unfolding handle_delete_order
  handle_delete_order-Of id w h = grind (arith, delete_found-Of, k.reads id w h)

  handle_list_orders-Of :
      (user last active : String) (w : World)
      → Of J w
      → Of J (handle_list_orders env user last active w).1
  unfolding handle_list_orders
  handle_list_orders-Of user last active w h = grind (arith, get_user_orders-Keeps env J)

  handle_get_order-Of : (id : String) (w : World) → Of J w → Of J (handle_get_order env id w).1
  unfolding handle_get_order
  handle_get_order-Of id w h = ground (arith, k.reads id w h)

  handle_update_order_status-Of :
      (id : String) (body : Option String) (w : World)
      → Of J w
      → Of J (handle_update_order_status env id body w).1
  unfolding handle_update_order_status
  handle_update_order_status-Of id none w h = ground arith
  handle_update_order_status-Of id (some status) w h =
      ground (arith, (update_order_status-Keeps k id status).at w h)

  handle_add_return-Of :
      (body : Option ReturnRequest) (w : World) → Of J w → Of J (handle_add_return env body w).1
  unfolding handle_add_return
  handle_add_return-Of none w h = h
  handle_add_return-Of (some r) w h =
      let ret : Return = record {
        order_id = r.order_id;
        user_id = r.user_id;
        returned_at = env.clock w.readings;
      } in
      ground (arith, (add_return-Keeps k ret).at (record w { readings = w.readings + 1 }) h)

  respond_bulk-Of :
      (pre success : String) (r : (List BulkResult × Option Error) × World)
      → Of J r.1
      → Of J (respond_bulk pre success r).1
  unfolding respond_bulk
  respond_bulk-Of pre success ((rs, none), w) h = h
  respond_bulk-Of pre success ((rs, some e), w) h = h

  handle_issue_orders-Of :
      (body : Option BulkRequest) (w : World) → Of J w → Of J (handle_issue_orders env body w).1
  unfolding handle_issue_orders perform
  handle_issue_orders-Of none w h = h
  handle_issue_orders-Of (some r) w h =
      let kept : Of J (Bulk.issue_orders env r.user_id r.order_ids w).1 =
        k.writes (Calls.issue_orders r.user_id r.order_ids) w h in
      grind (arith, respond_bulk-Of)

  handle_accept_returns-Of :
      (body : Option BulkRequest) (w : World) → Of J w → Of J (handle_accept_returns env body w).1
  unfolding handle_accept_returns perform
  handle_accept_returns-Of none w h = h
  handle_accept_returns-Of (some r) w h =
      let kept : Of J (Bulk.accept_returns env r.user_id r.order_ids w).1 =
        k.writes (Calls.accept_returns r.user_id r.order_ids) w h in
      grind (arith, respond_bulk-Of)

  handle_list_returns-Of :
      (page limit : String) (w : World) → Of J w → Of J (handle_list_returns env page limit w).1
  unfolding handle_list_returns
  handle_list_returns-Of page limit w h = grind (arith, get_returns-Keeps env J)

  handle_order_history-Of :
      (id : String) (w : World) → Of J w → Of J (handle_order_history env id w).1
  unfolding handle_order_history
  handle_order_history-Of id w h = ground (arith, (get_order_history-Keeps env J id).at w h)

  dispatch-Of :
      (r : Request) (route : Route) (id : String) (w : World)
      → Of J w
      → Of J (dispatch env r route id w).1
  unfolding dispatch
  dispatch-Of r create_order id = handle_create_order-Of r.create_body
  dispatch-Of r get_order id = handle_get_order-Of id
  dispatch-Of r update_order_status id = handle_update_order_status-Of id r.status_body
  dispatch-Of r delete_order id = handle_delete_order-Of id
  dispatch-Of r list_orders id =
      handle_list_orders-Of id (r.parameter "last") (r.parameter "active")
  dispatch-Of r add_return id = handle_add_return-Of r.return_body
  dispatch-Of r list_returns id = handle_list_returns-Of (r.parameter "page") (r.parameter "limit")
  dispatch-Of r issue_orders id = handle_issue_orders-Of r.bulk_body
  dispatch-Of r accept_returns id = handle_accept_returns-Of r.bulk_body
  dispatch-Of r order_history id = handle_order_history-Of id

  serve_mux-Of :
      (r : Request) (ps : List Pattern) (w : World) → Of J w → Of J (serve_mux env r ps w).1
  unfolding serve_mux
  serve_mux-Of r [] w h = ground arith
  serve_mux-Of r (p ∷ ps) w h =
      let rest : Of J (serve_mux env r ps w).1 = serve_mux-Of r ps w h in
      ground (arith, dispatch-Of r p.route (path_value p.segments r.path) w h)

  pub serve_http-Of : (r : Request) (w : World) → Of J w → Of J (serve_http env r w).1
  unfolding serve_http basic_auth
  serve_http-Of r w h = grind (arith, serve_mux-Of, validate_user-Keeps env J)
