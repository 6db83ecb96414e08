-- ===== src/Rest/Routes.antt =====
-- `setupRoutes` of internal/server/server.go: the patterns that are given to `http.ServeMux`, and the
-- request that reaches a handler. A path is the list of its segments, cleaned; `ServeMux` redirects the
-- others.
use ozon_final.Base.{
  String, Bool, true, false, not, ◌&&◌, ◌||◌, Option, List, [], ◌∷◌, if◌then◌else◌, ◌==◌,
}
use ozon_final.World.{Env}
use ozon_final.Rest.{plain, Handler, respond, basic_auth}
use ozon_final.Rest.Orders.{
  CreateRequest, ReturnRequest, handle_create_order, handle_get_order, handle_update_order_status,
  handle_delete_order, handle_add_return,
}
use ozon_final.Rest.Lists.{handle_list_orders, handle_list_returns, handle_order_history}
use ozon_final.Rest.Bulk.{BulkRequest, handle_issue_orders, handle_accept_returns}

-- A request: its credentials, its query parameters ("" for one that is not there), and what the JSON
-- decoder makes of its body for each type that a handler decodes.
pub record Request : Type 0 where
  pub method : String
  pub path : List String
  pub credentials : Option (String × String)
  pub parameter : String → String
  pub create_body : Option CreateRequest
  pub status_body : Option String
  pub return_body : Option ReturnRequest
  pub bulk_body : Option BulkRequest

pub data Segment : Type 0 where
  literal : String → Segment
  wildcard : Segment

-- The handlers that are registered.
pub data Route : Type 0 where
  create_order get_order update_order_status delete_order list_orders : Route
  add_return list_returns issue_orders accept_returns order_history : Route

pub record Pattern : Type 0 where
  pub method : String
  pub segments : List Segment
  pub route : Route

abbrev pattern_of : String → List Segment → Route → Pattern
pattern_of method segments route = record { method = method; segments = segments; route = route }

abbrev pub patterns : List Pattern
patterns =
    pattern_of "POST" (literal "orders" ∷ []) create_order
    ∷ pattern_of "GET" (literal "orders" ∷ wildcard ∷ []) get_order
    ∷ pattern_of "PUT" (literal "orders" ∷ wildcard ∷ literal "status" ∷ []) update_order_status
    ∷ pattern_of "DELETE" (literal "orders" ∷ wildcard ∷ []) delete_order
    ∷ pattern_of "GET" (literal "users" ∷ wildcard ∷ literal "orders" ∷ []) list_orders
    ∷ pattern_of "POST" (literal "returns" ∷ []) add_return
    ∷ pattern_of "GET" (literal "returns" ∷ []) list_returns
    ∷ pattern_of "POST" (literal "process" ∷ literal "issue" ∷ []) issue_orders
    ∷ pattern_of "POST" (literal "process" ∷ literal "return" ∷ []) accept_returns
    ∷ pattern_of "GET" (literal "orders" ∷ wildcard ∷ literal "history" ∷ []) order_history
    ∷ []

-- A wildcard takes one segment that is not empty.
unfoldable pub fits : List Segment → List String → Bool
fits [] [] = true
fits [] (s ∷ path) = false
fits (p ∷ ps) [] = false
fits (literal t ∷ ps) (s ∷ path) = t == s && fits ps path
fits (wildcard ∷ ps) (s ∷ path) = not (s == "") && fits ps path

-- A pattern for GET takes HEAD, too.
abbrev pub takes_method : String → String → Bool
takes_method wanted method = wanted == method || (wanted == "GET" && method == "HEAD")

unfoldable pub takes : Pattern → String → List String → Bool
takes p method path = takes_method p.method method && fits p.segments path

-- The value of the only wildcard of a pattern, `r.PathValue`
unfoldable pub path_value : List Segment → List String → String
path_value [] path = ""
path_value (p ∷ ps) [] = ""
path_value (literal t ∷ ps) (s ∷ path) = path_value ps path
path_value (wildcard ∷ ps) (s ∷ path) = s

module _ (env : Env) (r : Request) where
  unfoldable pub dispatch : Route → String → Handler
  dispatch create_order id = handle_create_order env r.create_body
  dispatch get_order id = handle_get_order env id
  dispatch update_order_status id = handle_update_order_status env id r.status_body
  dispatch delete_order id = handle_delete_order env id
  dispatch list_orders id = handle_list_orders env id (r.parameter "last") (r.parameter "active")
  dispatch add_return id = handle_add_return env r.return_body
  dispatch list_returns id = handle_list_returns env (r.parameter "page") (r.parameter "limit")
  dispatch issue_orders id = handle_issue_orders env r.bulk_body
  dispatch accept_returns id = handle_accept_returns env r.bulk_body
  dispatch order_history id = handle_order_history env id

  abbrev some_fits : List Pattern → Bool
  some_fits [] = false
  some_fits (p ∷ ps) = fits p.segments r.path || some_fits ps

  -- No two patterns take one request, so the first that does is the one that `ServeMux` finds.
  unfoldable pub serve_mux : List Pattern → Handler
  serve_mux [] =
      if some_fits patterns
      then respond 405 (plain "Method Not Allowed")
      else respond 404 (plain "404 page not found")
  serve_mux (p ∷ ps) =
      let rest = serve_mux ps in
      if takes p r.method r.path then dispatch p.route (path_value p.segments r.path) else rest

  -- The middleware stands in front of the whole multiplexer.
  unfoldable pub serve_http : Handler
  serve_http = basic_auth env r.credentials (serve_mux patterns)
