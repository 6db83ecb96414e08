-- ===== src/System/Agreement.antt =====
-- The requests that both servers take, side by side.
use ozon_final.Base.{
  ◌+◌, String, ◌≡◌, refl, sym, ap, ◌∙◌, ◌≢◌, Bool, true, false, none, some, Option, List, [], ◌∷◌,
  eq_iff, if◌then◌else◌, arith,
}
use ozon_final.Errors.{Error}
use mathlib.Core.Path.{subst}
use ozon_final.World.{Env, World, served, called, ◌>>=◌, map_error}
use ozon_final.Postgres.{query}
use ozon_final.Postgres.Users.{find_password, validate_user}
use ozon_final.Rest.{Handler, basic_auth}
use ozon_final.Rest.Routes
use ozon_final.Rest.Routes.{patterns, serve_mux, takes, fits, path_value, dispatch, serve_http}
use ozon_final.Storage
use ozon_final.Storage.Bulk.{BulkResult, issue_orders, accept_returns}
use ozon_final.Packager.{Packager}
use ozon_final.Rest.Orders.{
  CreateRequest, store_new_order, check_package, handle_create_order, handle_get_order,
  handle_update_order_status, delete_found, handle_delete_order, handle_add_return,
}
use ozon_final.Rest.Bulk.{respond_bulk, handle_issue_orders, handle_accept_returns}
use ozon_final.Grpc.{count_error, int_of_int32}
use ozon_final.Grpc.Orders.{
  CreateOrderRequest, as_time, store_created, check_created, create_order, count_returned,
  rpc_get_order, rpc_update_order_status, rpc_delete_found, rpc_delete_order, rpc_add_return,
}
use ozon_final.Grpc.Bulk.{
  count_issued, count_results, reply_bulk, rpc_issue_orders, rpc_accept_returns,
}
use ozon_final.Grpc.Methods
use ozon_final.Grpc.Methods.{serve_rpc}

-- What both servers take: a new order whose date is read as the time of the time stamp (the gRPC server
-- refuses Go's zero time at once), and no update without a status, which only the HTTP server accepts.
pub data Request (env : Env) : Type 0 where
  create :
      (r : CreateOrderRequest) (date : String)
      → env.parse_date date ≡ some (as_time r.storage_until)
      → as_time r.storage_until ≢ 0
      → Request env
  get delete : String → Request env
  update : (id status : String) → status ≢ "" → Request env
  give_back : String → String → Request env
  issue accept : String → List String → Request env

-- The new order as the HTTP server takes it.
abbrev pub create_request : CreateOrderRequest → String → CreateRequest
create_request r date = record {
  id = r.id;
  recipient_id = r.recipient_id;
  wrapper_type = r.wrapper_type;
  price = int_of_int32 r.price;
  weight = r.weight;
  storage_until = date;
  with_additional_membrane = r.with_additional_membrane;
}

abbrev by_handler : (env : Env) → Request env → World → World
by_handler env (create r date _ _) w = (handle_create_order env (some (create_request r date)) w).1
by_handler env (get id) w = (handle_get_order env id w).1
by_handler env (delete id) w = (handle_delete_order env id w).1
by_handler env (update id status _) w = (handle_update_order_status env id (some status) w).1
by_handler env (give_back order user) w =
    (handle_add_return env (some (record { order_id = order; user_id = user })) w).1
by_handler env (issue user ids) w =
    (handle_issue_orders env (some (record { user_id = user; order_ids = ids })) w).1
by_handler env (accept user ids) w =
    (handle_accept_returns env (some (record { user_id = user; order_ids = ids })) w).1

abbrev pub by_rpc : (env : Env) → Request env → World → World
by_rpc env (create r date _ _) = serve_rpc env (Methods.create_order r)
by_rpc env (get id) = serve_rpc env (Methods.get_order id)
by_rpc env (delete id) = serve_rpc env (Methods.delete_order id)
by_rpc env (update id status _) = serve_rpc env (Methods.update_order_status id status)
by_rpc env (give_back order user) = serve_rpc env (Methods.add_return order user)
by_rpc env (issue user ids) = serve_rpc env (Methods.issue_orders user ids)
by_rpc env (accept user ids) = serve_rpc env (Methods.accept_returns user ids)

-- All of the state but the metrics, which only the gRPC server counts.
abbrev pub Alike : World → World → Type 0
Alike v w = record v { metrics = w.metrics } ≡ w

count_results-Alike :
    (success : World → World) (label : String)
    → ((v w : World) → Alike v w → Alike v (success w))
    → (rs : List BulkResult) (v w : World) → Alike v w
    → Alike v (count_results success label rs w)
unfolding count_results
count_results-Alike success label ks [] v w h = h
count_results-Alike success label ks (r ∷ rs) v w h =
    count_results-Alike success label ks rs v _ (by_test r.success (ks v w h))
  where
    by_test :
        (b : Bool) → Alike v (success w) → Alike v (if b then success w else count_error label w)
    by_test true h' = h'
    by_test false h' = ground (arith, h)

reply_bulk-Alike :
    (success : World → World) (label pre http_pre http_success : String)
    → ((v w : World) → Alike v w → Alike v (success w))
    → (r : (List BulkResult × Option Error) × World)
    → Alike (respond_bulk http_pre http_success r).1 (reply_bulk success label pre r).1
unfolding reply_bulk respond_bulk
reply_bulk-Alike success label pre http_pre http_success ks ((rs, none), w) =
    count_results-Alike success label ks rs w w refl
reply_bulk-Alike success label pre http_pre http_success ks ((rs, some e), w) =
    count_results-Alike success label ks rs w w refl

module _ (env : Env) where
  delete_found-Alike :
      (id : String) (o : Storage.Order) (w : World)
      → Alike (delete_found env id o w).1 (rpc_delete_found env id o w).1
  unfolding delete_found rpc_delete_found
  delete_found-Alike id o w = ground arith

  store-Alike :
      (r : CreateOrderRequest) (date : String) (p : Packager) (w : World)
      → Alike
          (store_new_order env (create_request r date) (as_time r.storage_until) p w).1
          (store_created env r p w).1
  unfolding store_new_order store_created
  store-Alike r date p w = ground arith

  check-Alike :
      (r : CreateOrderRequest) (date : String) (w : World)
      → Alike
          (check_package env (create_request r date) (as_time r.storage_until) w).1
          (check_created env r w).1
  unfolding check_package check_created
  check-Alike r date w = grind (arith, store-Alike)

  create-Alike :
      (r : CreateOrderRequest) (date : String) (w : World)
      → env.parse_date date ≡ some (as_time r.storage_until)
      → as_time r.storage_until ≢ 0
      → Alike (handle_create_order env (some (create_request r date)) w).1 (create_order env r w).1
  unfolding handle_create_order create_order
  create-Alike r date w e ne =
      ground (arith, check-Alike r date (record w { readings = w.readings + 1 }))

  -- The handler and the method.
  handlers-Alike : (r : Request env) (w : World) → Alike (by_handler env r w) (by_rpc env r w)
  unfolding serve_rpc handle_get_order rpc_get_order handle_delete_order rpc_delete_order
      handle_update_order_status rpc_update_order_status handle_add_return rpc_add_return
      handle_issue_orders rpc_issue_orders handle_accept_returns rpc_accept_returns
  handlers-Alike (create r date e ne) w = create-Alike r date w e ne
  handlers-Alike (get id) w = ground arith
  handlers-Alike (delete id) w = grind (arith, delete_found-Alike)
  handlers-Alike (update id status ne) w = ground (arith, eq_iff status "")
  handlers-Alike (give_back order user) w = ground arith
  handlers-Alike (issue user ids) w = ground (
    arith,
    reply_bulk-Alike count_issued "issue_orders" "error processing bulk issue"
        "Error processing bulk issue: " "Issued successfully" (λ v w h. ground (arith, h))
        (issue_orders env user ids w),
  )
  handlers-Alike (accept user ids) w = ground (
    arith,
    reply_bulk-Alike count_returned "accept_returns" "error processing bulk return acceptance"
        "Error processing bulk return acceptance: " "Return accepted" (λ v w h. ground (arith, h))
        (accept_returns env user ids w),
  )

-- A request to the HTTP server that carries nothing.
abbrev plain_request : String → List String → String → String → Routes.Request
plain_request method path name password = record {
  method = method;
  path = path;
  credentials = some (name, password);
  parameter = λ s. "";
  create_body = none;
  status_body = none;
  return_body = none;
  bulk_body = none;
}

-- The request as the HTTP server gets it, with the credentials of basic authentication.
abbrev pub http_request : (env : Env) → Request env → String → String → Routes.Request
http_request env (create r date _ _) name password =
    record (plain_request "POST" ("orders" ∷ []) name password) {
      create_body = some (create_request r date);
    }
http_request env (get id) name password = plain_request "GET" ("orders" ∷ id ∷ []) name password
http_request env (delete id) name password =
    plain_request "DELETE" ("orders" ∷ id ∷ []) name password
http_request env (update id status _) name password =
    record (plain_request "PUT" ("orders" ∷ id ∷ "status" ∷ []) name password) {
      status_body = some status;
    }
http_request env (give_back order user) name password =
    record (plain_request "POST" ("returns" ∷ []) name password) {
      return_body = some (record { order_id = order; user_id = user });
    }
http_request env (issue user ids) name password =
    record (plain_request "POST" ("process" ∷ "issue" ∷ []) name password) {
      bulk_body = some (record { user_id = user; order_ids = ids });
    }
http_request env (accept user ids) name password =
    record (plain_request "POST" ("process" ∷ "return" ∷ []) name password) {
      bulk_body = some (record { user_id = user; order_ids = ids });
    }

module _ (env : Env) (name password : String) where
  -- `ServeMux` finds the handler, or, for an id that is empty, none, where the handler would refuse.
  mux-handler :
      (r : Request env) (w : World)
      → (serve_mux env (http_request env r name password) patterns w).1 ≡ by_handler env r w
  unfolding serve_mux takes fits path_value dispatch handle_get_order handle_delete_order
      handle_update_order_status
  mux-handler (create r date e ne) w = refl
  mux-handler (get id) w = ground arith
  mux-handler (delete id) w = ground arith
  mux-handler (update id status ne) w = ground arith
  mux-handler (give_back order user) w = refl
  mux-handler (issue user ids) w = refl
  mux-handler (accept user ids) w = refl

  credentials :
      (r : Request env) → (http_request env r name password).credentials ≡ some (name, password)
  credentials (create r date e ne) = refl
  credentials (get id) = refl
  credentials (delete id) = refl
  credentials (update id status ne) = refl
  credentials (give_back order user) = refl
  credentials (issue user ids) = refl
  credentials (accept user ids) = refl

  -- The middleware lets a known name through, after one call of the database.
  auth-next :
      (next : Handler) (given : Option (String × String)) (w : World) {hash : String}
      → given ≡ some (name, password)
      → env.answer w.calls ≡ served
      → find_password name w.db.users ≡ some hash
      → basic_auth env given next w ≡ next (called w)
  unfolding basic_auth validate_user query ◌>>=◌ map_error
  auth-next next given w known e found =
      subst (λ c. basic_auth env c next w ≡ next (called w)) (sym known) (ground (arith, e, found))

  -- Suppose that the database serves the query of the middleware and that the name of the request is in
  -- the table of users. Then a request that both servers take leaves behind it, sent to the HTTP server, the
  -- state that it leaves behind when it is sent to the gRPC server with that one call of the database already
  -- made: the same tables, the same cache, the same further calls of the database, whatever that answers.
  -- Only the metrics differ.
  pub serve_http-Alike :
      (r : Request env) (w : World) {hash : String}
      → env.answer w.calls ≡ served
      → find_password name w.db.users ≡ some hash
      → Alike (serve_http env (http_request env r name password) w).1 (by_rpc env r (called w))
  unfolding serve_http
  serve_http-Alike r w e found =
      subst (λ v. Alike v (by_rpc env r (called w)))
        (sym (
          ap (λ a. a.1)
            (auth-next (serve_mux env (http_request env r name password) patterns)
              (http_request env r name password).credentials w (credentials r) e found)
          ∙ mux-handler r (called w)))
        (handlers-Alike env r (called w))
