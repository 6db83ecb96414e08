-- ===== src/Grpc/Bulk.antt =====
-- `IssueOrders` and `AcceptReturns` of internal/grpcserver/server.go.
use Prim.Native.String.{◌++◌ as ◌++ₛ◌}
use ozon_final.Base.{◌+◌, String, ◌||◌, Option, none, some, List, [], ◌∷◌, if◌then◌else◌, ◌==◌}
use ozon_final.Errors.{Error, message}
use ozon_final.World.{Env, World}
use ozon_final.Storage.Bulk.{BulkResult, issue_orders, accept_returns}
use ozon_final.Rest.Bulk.{is_empty}
use ozon_final.Grpc.{invalid_argument, internal, Status, Reply, Rpc, fail, count_error}
use ozon_final.Grpc.Orders.{count_returned}

abbrev pub count_issued : World → World
count_issued w = record w {
  metrics = record w.metrics { orders_issued = w.metrics.orders_issued + 1 };
}

-- The loop over the results: one count of success or of an error for each.
unfoldable pub count_results : (World → World) → String → List BulkResult → World → World
count_results success label [] w = w
count_results success label (r ∷ rs) w =
    count_results success label rs (if r.success then success w else count_error label w)

abbrev pub bulk_failure : String → Option Error → Option Status
bulk_failure pre none = none
bulk_failure pre (some e) = some (record { code = internal; text = pre ++ₛ (": " ++ₛ message e) })

-- The results are copied into the response, also where a status is returned with it.
unfoldable pub reply_bulk :
    (World → World)
    → String
    → String
    → (List BulkResult × Option Error) × World
    → Reply (List BulkResult) × World
reply_bulk success label pre ((rs, e), w) =
    (record { response = some rs; failure = bulk_failure pre e }, count_results success label rs w)

module _ (env : Env) where
  unfoldable pub rpc_issue_orders : String → List String → Rpc (List BulkResult)
  rpc_issue_orders user ids =
      if user == "" || is_empty ids
      then fail "issue_orders" invalid_argument "user_id and at least one order_id are required"
      else λ w.
          reply_bulk count_issued "issue_orders" "error processing bulk issue"
            (issue_orders env user ids w)

  unfoldable pub rpc_accept_returns : String → List String → Rpc (List BulkResult)
  rpc_accept_returns user ids =
      if user == "" || is_empty ids
      then fail "accept_returns" invalid_argument "user_id and at least one order_id are required"
      else λ w.
          reply_bulk count_returned "accept_returns" "error processing bulk return acceptance"
            (accept_returns env user ids w)
