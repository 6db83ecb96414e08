-- ===== src/Postgres/Orders.antt =====
-- internal/repository/postgresql/order.go, with the columns and keys of
-- migrations/20250307163726_add_orders_table.sql.
pub mod Lookup
use ozon_final.Base.{
  ℕ, ◌+◌, ◌-◌, ◌^◌, String, Bool, true, false, not, ◌&&◌, ◌||◌, Option, none, some, List, [], ◌∷◌,
  ◌++◌, map, ltb, leb, if◌then◌else◌, keep, ◌==◌,
}
use ozon_final.Base.Sorting.{sort_by, take}
use ozon_final.Errors.{Error, not_found, wrap, Result, ok, err}
use ozon_final.Repository.{Order, ReturnEntry, HistoryEntry}
use ozon_final.World.{
  Env, Tables, World, duplicate_key, bad_wrapper, out_of_range, negative_window, Action, pure,
  raise, ◌>>=◌, map_error,
}
use ozon_final.Postgres.{Statement, Executor, in_tx, on_pool, violated, exec, query}

-- The values of the type `wrapper_type`.
abbrev pub wrapper_types : List String
wrapper_types = "Bag" ∷ "Box" ∷ "Membrane" ∷ "Bag with Membrane" ∷ "Box with Membrane" ∷ []

abbrev pub is_wrapper_type : String → Bool
is_wrapper_type s =
    s == "Bag"
    || (s == "Box" || (s == "Membrane" || (s == "Bag with Membrane" || s == "Box with Membrane")))

-- Does the 64-bit pattern of a Go `int` fit a column of type INTEGER?
abbrev pub fits_integer : ℕ → Bool
fits_integer p = ltb p (2 ^ 31) || leb (2 ^ 64 - 2 ^ 31) p

-- The pattern of a negative `int`
abbrev pub is_negative : ℕ → Bool
is_negative p = leb (2 ^ 63) p

-- `WHERE id = $1`; `id` is the primary key
unfoldable pub find_order : String → List Order → Option Order
find_order id [] = none
find_order id (o ∷ os) = if o.id == id then some o else find_order id os

abbrev pub has_order : String → List Order → Bool
has_order id os = elim (find_order id os) [ none ↦ false | some _ ↦ true ]

module _ (env : Env) where
  -- The row that a struct becomes.
  abbrev pub order_row : Order → Order
  order_row o = record o {
    storage_until = env.stored_time o.storage_until;
    created_at = env.stored_time o.created_at;
    updated_at = env.stored_time o.updated_at;
  }

  -- `UPDATE orders SET …`: the columns `id` and `created_at` stay
  abbrev pub set_order : Order → Order → Order
  set_order o row = record o {
    id = row.id;
    storage_until = env.stored_time o.storage_until;
    created_at = row.created_at;
    updated_at = env.stored_time o.updated_at;
  }

  unfoldable pub insert_order : Order → Statement (Unit {0})
  insert_order o n t =
      if not (fits_integer o.price)
      then violated env out_of_range
      else if not (is_wrapper_type o.wrapper)
      then violated env bad_wrapper
      else if has_order o.id t.orders
      then violated env duplicate_key
      else ok (tt, record t { orders = t.orders ++ order_row o ∷ [] })

  unfoldable pub update_rows : Order → List Order → List Order
  update_rows o [] = []
  update_rows o (row ∷ rows) =
      (if row.id == o.id then set_order o row else row) ∷ update_rows o rows

  unfoldable pub update_order : Order → Statement (Unit {0})
  update_order o n t =
      if not (fits_integer o.price)
      then violated env out_of_range
      else if not (is_wrapper_type o.wrapper)
      then violated env bad_wrapper
      else ok (tt, record t { orders = update_rows o t.orders })

  -- `DELETE FROM orders`; both foreign keys say ON DELETE CASCADE
  unfoldable pub delete_order : String → Statement (Unit {0})
  delete_order id n t = ok (
    tt,
    record t {
      orders = keep (λ o. not (o.id == id)) t.orders;
      returns = keep (λ r. not (r.order_id == id)) t.returns;
      history = keep (λ h. not (h.order_id == id)) t.history;
    },
  )

  -- `Create` and `CreateTx`
  unfoldable pub create : Order → Action (Unit {0})
  create o = exec env on_pool (insert_order o)

  unfoldable pub create_tx : Order → Action (Unit {0})
  create_tx o = exec env in_tx (insert_order o)

  -- A query of one row; `none` is `pgx.ErrNoRows`.
  abbrev pub or_not_found : Option Order → Action Order
  or_not_found none = raise not_found
  or_not_found (some o) = pure o

  unfoldable pub get_by_id : String → Action Order
  get_by_id id = do found ← query env on_pool (λ t. ok (find_order id t.orders)); or_not_found found

  unfoldable pub get_by_id_tx : String → Action Order
  get_by_id_tx id = do
    found ← query env in_tx (λ t. ok (find_order id t.orders))
    or_not_found found

  unfoldable pub update : Order → Action (Unit {0})
  update o = exec env on_pool (update_order o)

  unfoldable pub update_tx : Order → Action (Unit {0})
  update_tx o = exec env in_tx (update_order o)

  unfoldable pub delete : String → Action (Unit {0})
  delete id = exec env on_pool (delete_order id)

  unfoldable pub delete_tx : String → Action (Unit {0})
  delete_tx id = exec env in_tx (delete_order id)

  abbrev pub of_user : String → Bool → Order → Bool
  of_user user active_only o =
      o.recipient_id == user
      && (not active_only || (not (o.status == "issued") && not (o.status == "returned")))

  -- the rows of `GetByUserID`, newest first; no limit unless `limit > 0`
  unfoldable pub user_rows : String → ℕ → Bool → List Order → List Order
  user_rows user limit active_only os =
      let rows =
        sort_by (λ a b. leb b.created_at a.created_at) (keep (of_user user active_only) os) in
      if ltb 0 limit && not (is_negative limit) then take limit rows else rows

  unfoldable pub get_by_user_id : String → ℕ → Bool → Action (List Order)
  get_by_user_id user limit active_only =
      query env on_pool (λ t. ok (user_rows user limit active_only t.orders))

  unfoldable pub active_rows : List Order → List Order
  active_rows os =
      sort_by (λ a b. leb a.created_at b.created_at)
        (keep (λ o. o.status == "received" || o.status == "issued") os)

  unfoldable pub get_all_active_orders : Action (List Order)
  get_all_active_orders =
      map_error (wrap "failed to get all active orders")
        (query env on_pool (λ t. ok (active_rows t.orders)))
