-- ===== src/Storage/Calls.antt =====
-- The methods of internal/storage/filestorage.go that run a transaction, as one type of calls.
use ozon_final.Base.{String, Option, none, some, List, [], ◌∷◌}
use ozon_final.Errors.{Error, Result, ok, err}
use ozon_final.World.{Env, World}
use ozon_final.Storage.{Order, Return}
use ozon_final.Storage.Orders
use ozon_final.Storage.Bulk.{BulkResult}
use ozon_final.Storage.Bulk

pub data Method : Type 0 where
  add_order : Order → Method
  update_order_status : String → String → Method
  delete_order : String → Method
  add_return : Return → Method
  issue_orders accept_returns : String → List String → Method

abbrev failure : {A : Type 0} → Result A → Option Error
failure (ok a) = none
failure (err e) = some e

abbrev pub error_of : {A : Type 0} → Result A × World → Option Error × World
error_of (r, w) = (failure r, w)

abbrev pub bulk_error_of : (List BulkResult × Option Error) × World → Option Error × World
bulk_error_of ((rs, e), w) = (e, w)

-- The error that a call returns, and the state after it.
unfoldable pub perform : Env → Method → World → Option Error × World
perform env (add_order o) w = error_of (Orders.add_order env o w)
perform env (update_order_status id status) w =
    error_of (Orders.update_order_status env id status w)
perform env (delete_order id) w = error_of (Orders.delete_order env id w)
perform env (add_return ret) w = error_of (Orders.add_return env ret w)
perform env (issue_orders user ids) w = bulk_error_of (Bulk.issue_orders env user ids w)
perform env (accept_returns user ids) w = bulk_error_of (Bulk.accept_returns env user ids w)

-- A sequence of calls, whatever each of them returns.
unfoldable pub perform_all : Env → List Method → World → World
perform_all env [] w = w
perform_all env (m ∷ ms) w = let (_, w') = perform env m w in perform_all env ms w'
