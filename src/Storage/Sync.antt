-- ===== src/Storage/Sync.antt =====
-- The cache against the committed rows, method by method.
mod Singles
mod Batches
use ozon_final.Base.{
  ℕ, String, ◌≡◌, refl, sym, ap, ◌∙◌, ◌⊎◌, inl, inr, none, some, List, [], ◌∷◌, ◌++◌, keep, not,
  ◌==◌, eq_iff, arith,
}
use mathlib.Core.Path.{subst}
use ozon_final.Base.Dict.{Dict, lookup, insert}
use ozon_final.Repository
use ozon_final.World.{Env, World}
use ozon_final.Cache
use ozon_final.Postgres.Orders.{find_order, order_row, update_rows}
use ozon_final.Storage.{Order, Return, to_row}
use ozon_final.Storage.Orders
use ozon_final.Storage.Orders.{changed}
use ozon_final.Storage.Bulk.{
  Batch, add_failure, add_success, issue_one, accept_one, cache_set_all, cache_delete_all,
  empty_batch,
}
use ozon_final.Storage.Bulk
use ozon_final.Storage.Calls.{
  Method, add_order, update_order_status, delete_order, add_return, issue_orders, accept_returns,
  perform, perform_all,
}
use ozon_final.Storage.Frozen.{
  Frozen-add_order_body, Frozen-update_status_body, Frozen-delete_order_body,
  Frozen-add_return_body, Frozen-issue_one, Frozen-accept_one,
}
use ozon_final.Storage.Invariants.{state-forget, db-cache_set_all, db-cache_delete_all}
use ozon_final.Storage.Rows.Bodies.{
  Rows, ReadRows, add_order_body-On, delete_order_body-On, update_status_body-On,
  add_return_body-On,
}
use ozon_final.Storage.Rows.Batches.{issue_one-On, accept_one-On}
use ozon_final.Storage.Committed.{IsHonest, Synced, in_transaction-Synced, bulk-Synced}
use ozon_final.Storage.Coherence.{
  IsStable, Known, InSync, Effect, order_row_idem, set-Known, delete-Known, append-Effect,
  remove-Effect, update-Effect,
}
use ozon_final.Storage.Coherence.Batches.{
  Issuing, Accepting, AgreesBut, issue-Issuing, accept-Accepting, cache_set_all-Known,
  cache_delete_all-Known,
}
use ozon_final.Storage.Sync.Singles.{
  add_order-Known, delete_order-Known, update_order_status-Known, add_return-Known,
}
use ozon_final.Storage.Sync.Batches.{issue_orders-Known, accept_returns-Known}

module _ (env : Env) (honest : IsHonest env) (stable : IsStable env)
    (P : String → Repository.Order → Type 0) (w : World) (h : Synced (Known env P) w) where
  pub perform-Known : (m : Method) → Synced (Known env P) (perform env m w).1
  unfolding perform
  perform-Known (add_order o) = add_order-Known env honest stable P w h o
  perform-Known (update_order_status id status) =
      update_order_status-Known env honest stable P w h id status
  perform-Known (delete_order id) = delete_order-Known env honest stable P w h id
  perform-Known (add_return ret) = add_return-Known env honest stable P w h ret
  perform-Known (issue_orders user ids) = issue_orders-Known env honest stable P w h user ids
  perform-Known (accept_returns user ids) = accept_returns-Known env honest stable P w h user ids

pub perform-InSync :
    (env : Env)
    → IsHonest env
    → IsStable env
    → (w : World) → Synced (InSync env) w
    → (m : Method) → Synced (InSync env) (perform env m w).1
perform-InSync env honest stable w h m = perform-Known env honest stable _ w h m

-- Suppose that the database never loses the reply of a call that took effect, and that a column keeps
-- what it has kept of a time. If every committed row is what its columns keep of it, and every order in
-- the cache stands under its id and is, up to what the columns keep of its times, the committed row of
-- that id, then all this holds again after any sequence of storage calls, whatever they return.
pub perform_all-InSync :
    (env : Env)
    → IsHonest env
    → IsStable env
    → (ms : List Method) (w : World) → InSync env w.db.orders w.cache
    → InSync env (perform_all env ms w).db.orders (perform_all env ms w).cache
unfolding perform_all
perform_all-InSync env honest stable [] w h = h
perform_all-InSync env honest stable (m ∷ ms) w h =
    perform_all-InSync env honest stable ms (perform env m w).1
      (perform-InSync env honest stable w h m)
