-- ===== src/Storage/Queries.antt =====
-- The methods of internal/storage/filestorage.go that read lists: `GetUserOrders`, `GetReturns`,
-- `GetOrderHistory`.
use ozon_final.Base.{ℕ, String, Bool, List, map}
use ozon_final.Errors.{wrap}
use ozon_final.Repository
use ozon_final.World.{Env, Action, pure, ◌>>=◌, map_error}
use ozon_final.Postgres.Orders.{get_by_user_id}
use ozon_final.Postgres.Returns.{get_paginated, get_by_order_id}
use ozon_final.Storage.{Order, Return, HistoryEntry, of_row}

abbrev pub return_of_row : Repository.ReturnEntry → Return
return_of_row r = record { order_id = r.order_id; user_id = r.user_id; returned_at = r.returned_at }

-- The literal of `GetOrderHistory` names no `OrderID`.
abbrev pub entry_of_row : Repository.HistoryEntry → HistoryEntry
entry_of_row h = record { order_id = ""; status = h.status; changed_at = h.changed_at }

module _ (env : Env) where
  unfoldable pub get_user_orders : String → ℕ → Bool → Action (List Order)
  get_user_orders user last_n active_only = do
    rows ← map_error (wrap "failed to get user orders") (get_by_user_id env user last_n active_only)
    pure (map of_row rows)

  unfoldable pub get_returns : ℕ → ℕ → Action (List Return)
  get_returns page limit = do
    rows ← map_error (wrap "failed to get returns") (get_paginated env page limit)
    pure (map return_of_row rows)

  unfoldable pub get_order_history : String → Action (List HistoryEntry)
  get_order_history id = do
    rows ← map_error (wrap "failed to get order history") (get_by_order_id env id)
    pure (map entry_of_row rows)
