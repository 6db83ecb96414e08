-- ===== src/Rest/Lists.antt =====
-- The handlers of internal/server/server.go that list. A query parameter that is not there is "".
use ozon_final.Base.{ℕ, String, Bool, ◌||◌, Option, none, some, eqb, if◌then◌else◌, ◌==◌}
use ozon_final.World.{Env}
use ozon_final.Postgres.Orders.{is_negative}
use ozon_final.Storage.Queries.{get_user_orders, get_returns, get_order_history}
use ozon_final.Rest.{orders, returns, history, Handler, respond, respond_error, call}
use ozon_final.Rest.Orders.{internal_error}

-- `n <= 0` on the pattern of an `int`
abbrev pub is_not_positive : ℕ → Bool
is_not_positive n = eqb n 0 || is_negative n

module _ (env : Env) where
  abbrev positive : Option ℕ → Option ℕ
  positive none = none
  positive (some n) = if is_not_positive n then none else some n

  -- A parameter that must be a positive number if it is there.
  abbrev pub number_or : ℕ → String → Option ℕ
  number_or default s = if s == "" then some default else positive (env.parse_int s)

  unfoldable pub handle_list_orders : String → String → String → Handler
  handle_list_orders user last active =
      if user == "" then respond_error 400 "Missing user ID" else elim (number_or 0 last) [
        | none ↦ respond_error 400 "Invalid value for 'last' parameter"
        | some last_n ↦
            call (get_user_orders env user last_n (active == "true"))
              (λ os. respond 200 (orders os)) internal_error
      ]

  unfoldable pub handle_list_returns : String → String → Handler
  handle_list_returns page limit = elim (number_or 1 page) [
    | none ↦ respond_error 400 "Invalid value for 'page' parameter"
    | some p ↦ elim (number_or 10 limit) [
      | none ↦ respond_error 400 "Invalid value for 'limit' parameter"
      | some l ↦ call (get_returns env p l) (λ rs. respond 200 (returns rs)) internal_error
    ]
  ]

  unfoldable pub handle_order_history : String → Handler
  handle_order_history id =
      if id == ""
      then respond_error 400 "Missing order ID"
      else call (get_order_history env id) (λ hs. respond 200 (history hs)) internal_error
