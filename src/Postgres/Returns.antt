-- ===== src/Postgres/Returns.antt =====
-- internal/repository/postgresql/return.go and history.go, with the foreign keys of
-- migrations/20250307163904_add_return_table.sql and 20250307163840_add_history_table.sql.
pub mod Status
use ozon_final.Base.{
  ℕ, ◌+◌, ◌-◌, ◌*◌, ◌%◌, ◌^◌, String, Bool, not, ◌||◌, List, [], ◌∷◌, ◌++◌, leb, if◌then◌else◌,
  keep, ◌==◌,
}
use ozon_final.Base.Sorting.{sort_by, take, drop}
use ozon_final.Errors.{Error, Result, ok, err}
use ozon_final.Repository.{Order, ReturnEntry, HistoryEntry}
use ozon_final.World.{Env, Tables, World, no_parent, negative_window, Action}
use ozon_final.Postgres.{Statement, Executor, in_tx, on_pool, violated, exec, query}
use ozon_final.Postgres.Orders.{has_order, is_negative}

module _ (env : Env) where
  unfoldable pub insert_return : ReturnEntry → Statement (Unit {0})
  insert_return r n t =
      if has_order r.order_id t.orders
      then ok (
        tt,
        record t {
          returns =
              t.returns ++ record r { id = n; returned_at = env.stored_time r.returned_at } ∷ [];
        },
      )
      else violated env no_parent

  unfoldable pub insert_history : HistoryEntry → Statement (Unit {0})
  insert_history h n t =
      if has_order h.order_id t.orders
      then ok (
        tt,
        record t {
          history =
              t.history ++ record h { id = n; changed_at = env.stored_time h.changed_at } ∷ [];
        },
      )
      else violated env no_parent

  -- `ReturnRepo.Create` and `CreateTx`
  unfoldable pub create_return : ReturnEntry → Action (Unit {0})
  create_return r = exec env on_pool (insert_return r)

  unfoldable pub create_return_tx : ReturnEntry → Action (Unit {0})
  create_return_tx r = exec env in_tx (insert_return r)

  -- `HistoryRepo.Create` and `CreateTx`
  unfoldable pub create_history : HistoryEntry → Action (Unit {0})
  create_history h = exec env on_pool (insert_history h)

  unfoldable pub create_history_tx : HistoryEntry → Action (Unit {0})
  create_history_tx h = exec env in_tx (insert_history h)

  -- `offset := (page - 1) * limit`, on 64-bit patterns
  unfoldable pub page_offset : ℕ → ℕ → ℕ
  page_offset page limit = (page + 2 ^ 64 - 1) % 2 ^ 64 * limit % 2 ^ 64

  unfoldable pub page_rows : ℕ → ℕ → List ReturnEntry → List ReturnEntry
  page_rows limit offset rs =
      take limit (drop offset (sort_by (λ a b. leb b.returned_at a.returned_at) rs))

  -- A negative LIMIT or OFFSET is an error of the server. Rows of one time come in the order in which this
  -- query reads them.
  unfoldable pub get_paginated : ℕ → ℕ → Action (List ReturnEntry)
  get_paginated page limit w =
      let offset : ℕ = page_offset page limit in
      query env on_pool
        (λ t.
          if is_negative limit || is_negative offset
          then violated env negative_window
          else ok (page_rows limit offset (env.scan w.calls t.returns)))
        w

  unfoldable pub history_rows : String → List HistoryEntry → List HistoryEntry
  history_rows id hs =
      sort_by (λ a b. leb a.changed_at b.changed_at) (keep (λ h. h.order_id == id) hs)

  unfoldable pub get_by_order_id : String → Action (List HistoryEntry)
  get_by_order_id id = query env on_pool (λ t. ok (history_rows id t.history))
