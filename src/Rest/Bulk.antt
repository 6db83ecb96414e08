-- ===== src/Rest/Bulk.antt =====
-- `handleIssueOrders` and `handleAcceptReturns` of internal/server/server.go.
use Prim.Native.String.{◌++◌}
use ozon_final.Base.{
  String, Bool, true, false, ◌||◌, Option, none, some, List, [], ◌∷◌, if◌then◌else◌, ◌==◌,
}
use ozon_final.Base.Dict.{Dict, insert}
use ozon_final.Errors.{Error, message}
use ozon_final.World.{Env, World}
use ozon_final.Storage.Bulk.{BulkResult, issue_orders, accept_returns}
use ozon_final.Rest.{fields, Response, Handler, respond, respond_error}

pub record BulkRequest : Type 0 where
  pub user_id : String
  pub order_ids : List String

abbrev pub is_empty : List String → Bool
is_empty [] = true
is_empty (_ ∷ _) = false

abbrev pub result_text : String → BulkResult → String
result_text success r = if r.success then success else "Failed: " ++ r.error

-- The loop that fills `responseMap`: a later result of the same id replaces an earlier one.
unfoldable pub response_map : String → List BulkResult → Dict String → Dict String
response_map success [] m = m
response_map success (r ∷ rs) m =
    response_map success rs (insert r.order_id (result_text success r) m)

unfoldable pub respond_bulk :
    String → String → (List BulkResult × Option Error) × World → Response × World
respond_bulk pre success ((rs, none), w) = respond 200 (fields (response_map success rs [])) w
respond_bulk pre success ((rs, some e), w) = respond_error 500 (pre ++ message e) w

module _ (env : Env) where
  unfoldable pub handle_issue_orders : Option BulkRequest → Handler
  handle_issue_orders none = respond_error 400 "Invalid request body"
  handle_issue_orders (some r) =
      if r.user_id == "" || is_empty r.order_ids
      then respond_error 400 "Missing user_id or order_ids"
      else λ w.
          respond_bulk "Error processing bulk issue: " "Issued successfully"
            (issue_orders env r.user_id r.order_ids w)

  unfoldable pub handle_accept_returns : Option BulkRequest → Handler
  handle_accept_returns none = respond_error 400 "Invalid request body"
  handle_accept_returns (some r) =
      if r.user_id == "" || is_empty r.order_ids
      then respond_error 400 "Missing user_id or order_ids"
      else λ w.
          respond_bulk "Error processing bulk return acceptance: " "Return accepted"
            (accept_returns env r.user_id r.order_ids w)
