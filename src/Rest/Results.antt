-- ===== src/Rest/Results.antt =====
-- The map of results in the response of a bulk handler.
use Prim.Native.String.{◌++◌ as ◌++ₛ◌}
use ozon_final.Base.{
  String, ◌≡◌, ◌≢◌, refl, false, eq_iff, Option, none, some, List, [], ◌∷◌, if◌then◌else◌, ◌==◌,
  arith,
}
use ozon_final.Base.Dict.{Dict, lookup, insert, lookup-insert}
use ozon_final.Errors.{Error, message}
use ozon_final.World.{Env, World}
use ozon_final.Storage.Bulk.{BulkResult, issue_orders, accept_returns}
use ozon_final.Rest.{Response, fields}
use ozon_final.Rest.Bulk.{
  response_map, result_text, respond_bulk, handle_issue_orders, handle_accept_returns,
}

-- The last result of an id.
abbrev pub last_result : String → List BulkResult → Option BulkResult
last_result id [] = none
last_result id (r ∷ rs) =
    let rest = last_result id rs in
    elim rest [ some later ↦ some later | none ↦ if r.order_id == id then some r else none ]

-- What a client is told of a result: the success of the method, or its reason.
abbrev pub told : String → Option BulkResult → Option String
told success none = none
told success (some r) = some (if r.success then success else "Failed: " ++ₛ r.error)

abbrev or_before : String → Option String → Option BulkResult → Option String
or_before success before none = before
or_before success before (some r) = told success (some r)

response_map-from :
    (success id : String) (rs : List BulkResult) (m : Dict String)
    → lookup id (response_map success rs m) ≡ or_before success (lookup id m) (last_result id rs)
unfolding response_map
response_map-from success id [] m = refl
response_map-from success id (r ∷ rs) m = ground (
  arith,
  response_map-from success id rs (insert r.order_id (result_text success r) m),
  lookup-insert r.order_id id (result_text success r) m,
)

lookup-response_map :
    (success id : String) (rs : List BulkResult)
    → lookup id (response_map success rs []) ≡ told success (last_result id rs)
unfolding lookup
lookup-response_map success id rs = by_last (last_result id rs) (response_map-from success id rs [])
  where
    by_last :
        (r : Option BulkResult)
        → lookup id (response_map success rs []) ≡ or_before success none r
        → lookup id (response_map success rs []) ≡ told success r
    by_last none e = e
    by_last (some r) e = e

-- The answer is 200 with a map that tells of each id what its last result says, or 500 with the error.
abbrev pub Tells : String → String → (List BulkResult × Option Error) → Response → Type 0
Tells pre success (rs, none) a =
    (a.status ≡ 200)
    × ((m : Dict String) × ((a.body ≡ fields m)
          × ((id : String) → lookup id m ≡ told success (last_result id rs))))
Tells pre success (rs, some e) a =
    (a.status ≡ 500) × (a.body ≡ fields (("error", pre ++ₛ message e) ∷ []))

respond_bulk-Tells :
    (pre success : String) (r : (List BulkResult × Option Error) × World)
    → Tells pre success r.0 (respond_bulk pre success r).0
unfolding respond_bulk
respond_bulk-Tells pre success ((rs, none), w) =
    (refl, (response_map success rs [], (refl, λ id. lookup-response_map success id rs)))
respond_bulk-Tells pre success ((rs, some e), w) = (refl, refl)

-- The two handlers, on a body with a user and with order ids: where the method of the storage returns no
-- error, the client is told of each order id "Issued successfully" or "Return accepted" if the last of the
-- id's results is a success, "Failed: " and the reason if it is not, and nothing of other ids; where it
-- returns an error, the client is told 500 and that error.
pub bulk-Tells :
    (env : Env) (user id : String) (ids : List String) (w : World)
    → user ≢ ""
    → Tells "Error processing bulk issue: " "Issued successfully"
        (issue_orders env user (id ∷ ids) w).0
        (handle_issue_orders env (some (record { user_id = user; order_ids = id ∷ ids })) w).0
      × Tells "Error processing bulk return acceptance: " "Return accepted"
          (accept_returns env user (id ∷ ids) w).0
          (handle_accept_returns env (some (record { user_id = user; order_ids = id ∷ ids })) w).0
unfolding handle_issue_orders handle_accept_returns
bulk-Tells env user id ids w n =
    let given : (user == "") ≡ false = ground (arith, eq_iff user "", n) in
    rw given (
      respond_bulk-Tells _ _ (issue_orders env user (id ∷ ids) w),
      respond_bulk-Tells _ _ (accept_returns env user (id ∷ ids) w),
    )
