-- ===== src/Rest/Orders.antt =====
-- The handlers of internal/server/server.go on one order. A request body is what the JSON decoder
-- has made of it, `none` where it fails.
use Prim.Native.String.{◌++◌}
use ozon_final.Base.{
  ℕ, ◌+◌, String, Bool, not, ◌||◌, Option, none, some, [], ◌∷◌, ltb, if◌then◌else◌, ◌==◌,
}
use ozon_final.Base.Text.{contains}
use ozon_final.Errors.{Error, message}
use ozon_final.World.{Env, lift}
use ozon_final.Packager.{get_packager, validate_weight, adjust_price, get_type, Packager}
use ozon_final.Storage.{Order}
use ozon_final.Storage.Orders.{add_order, get_order, update_order_status, delete_order, add_return}
use ozon_final.Rest.{fields, order, Handler, respond, respond_error, call}

pub record CreateRequest : Type 0 where
  pub id : String
  pub recipient_id : String
  pub wrapper_type : String
  pub price : ℕ
  pub weight : ℕ
  pub storage_until : String
  pub with_additional_membrane : Bool

pub record ReturnRequest : Type 0 where
  pub order_id : String
  pub user_id : String

abbrev pub internal_error : Error → Handler
internal_error e = respond_error 500 ("Error: " ++ message e)

-- The time of the call, for a handler that goes on.
abbrev pub at_now : Env → (ℕ → Handler) → Handler
at_now env f w = f (env.clock w.readings) (record w { readings = w.readings + 1 })

abbrev pub received_order : CreateRequest → ℕ → Packager → ℕ → ℕ → Order
received_order r date p created_at updated_at = record {
  id = r.id;
  recipient_id = r.recipient_id;
  storage_until = date;
  status = "received";
  price = adjust_price p r.price;
  weight = r.weight;
  wrapper = get_type p;
  created_at = created_at;
  updated_at = updated_at;
}

module _ (env : Env) where
  -- `handleCreateOrder` behind its checks
  unfoldable pub store_new_order : CreateRequest → ℕ → Packager → Handler
  store_new_order r date p = at_now env λ created_at. at_now env λ updated_at.
      call (add_order env (received_order r date p created_at updated_at))
        (λ _. respond 201 (fields (("message", "Order accepted successfully") ∷ ("id", r.id) ∷ [])))
        internal_error

  unfoldable pub check_package : CreateRequest → ℕ → Handler
  check_package r date =
      call (lift (get_packager r.wrapper_type r.with_additional_membrane))
        (λ p.
          call (lift (validate_weight env p r.weight)) (λ _. store_new_order r date p)
            (λ e. respond_error 400 ("Validation Failed: " ++ message e)))
        (λ e. respond_error 400 ("Error: " ++ message e))

  unfoldable pub handle_create_order : Option CreateRequest → Handler
  handle_create_order none = respond_error 400 "Invalid request body"
  handle_create_order (some r) = elim (env.parse_date r.storage_until) [
    | none ↦ respond_error 400 "Invalid date format. Use YYYY-MM-DD"
    | some date ↦ at_now env λ at.
        if ltb date at
        then respond_error 400 "Error: storage period is in the past"
        else check_package r date
  ]

  unfoldable pub handle_get_order : String → Handler
  handle_get_order id =
      if id == ""
      then respond_error 400 "Missing order ID"
      else call (get_order env id) (λ o. respond 200 (order o))
          (λ e. respond_error 404 ("Error: " ++ message e))

  unfoldable pub handle_update_order_status : String → Option String → Handler
  handle_update_order_status id body =
      if id == "" then respond_error 400 "Missing order ID" else elim body [
        | none ↦ respond_error 400 "Invalid request body"
        | some status ↦
            call (update_order_status env id status)
              (λ _. respond 200 (fields (("message", "Order status updated successfully") ∷ [])))
              internal_error
      ]

  -- `handleDeleteOrder` once the order is found
  unfoldable pub delete_found : String → Order → Handler
  delete_found id o =
      if not (o.status == "received")
      then respond_error 400 "Cannot return: order not in 'received' status"
      else at_now env λ at.
        if ltb at o.storage_until
        then respond_error 400 "Cannot return: storage period not expired"
        else call (delete_order env id)
            (λ _. respond 200 (fields (("message", "Order returned to courier") ∷ [])))
            internal_error

  unfoldable pub handle_delete_order : String → Handler
  handle_delete_order id =
      if id == ""
      then respond_error 400 "Missing order ID"
      else call (get_order env id) (delete_found id)
          (λ e. respond_error 404 ("Error: " ++ message e))

-- The texts by which both servers tell a refused return from a failed one.
unfoldable pub is_return_refusal : String → Bool
is_return_refusal m =
    contains m "not found"
    || (contains m "does not belong"
        || (contains m "not in 'issued' status" || contains m "return period expired"))

module _ (env : Env) where
  unfoldable pub handle_add_return : Option ReturnRequest → Handler
  handle_add_return none = respond_error 400 "Invalid request body"
  handle_add_return (some r) =
      if r.order_id == "" || r.user_id == ""
      then respond_error 400 "Missing order_id or user_id"
      else at_now env λ at.
        call
          (add_return env (record { order_id = r.order_id; user_id = r.user_id; returned_at = at }))
          (λ _. respond 200 (
            fields (
              ("message", "Return accepted and order status updated for order " ++ r.order_id)
              ∷ [])))
          (λ e.
            if is_return_refusal (message e)
            then respond_error 400 ("Error: " ++ message e)
            else respond_error 500 "Error: failed to process return")
