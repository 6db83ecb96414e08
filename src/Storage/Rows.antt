-- ===== src/Storage/Rows.antt =====
-- What the bodies of the storage methods do to the rows of the table `orders`. A predicate on the rows
-- alone passes through every other statement.
pub mod Bodies
pub mod Batches
use ozon_final.Base.{
  ℕ, String, ◌≡◌, refl, sym, Bool, not, Option, none, some, List, [], ◌∷◌, ◌++◌, keep, ◌==◌, arith,
}
use mathlib.Core.Path.{subst}
use ozon_final.Errors.{Error, Result, ok, err}
use ozon_final.Repository
use ozon_final.Repository.{HistoryEntry, ReturnEntry, OutboxTask}
use ozon_final.World.{Env, Tables, World, Action}
use ozon_final.Postgres.Ensures.{Ensures, Ensures-exec, StatementPost, StatementPost-map}
use ozon_final.Postgres.Done.{insert_order-done, update_order-done, insert_history-done}
use ozon_final.Postgres.Orders.{
  find_order, order_row, update_rows, create_tx, update_tx, delete_tx, delete_order,
}
use ozon_final.Postgres.Returns.{create_history_tx, create_return_tx}
use ozon_final.Postgres.Outbox.{create_task_tx}
use ozon_final.Storage.History.{create_return_tx-keeps, create_task_tx-keeps}

abbrev pub On : (List Repository.Order → Type 0) → Tables → Type 0
On p t = p t.orders

module _ (env : Env) (p : List Repository.Order → Type 0) where
  pub create_history_tx-On :
      (h : HistoryEntry) → Ensures (On p) (create_history_tx env h) (λ _. On p)
  unfolding create_history_tx
  create_history_tx-On e = Ensures-exec (On p) _ env _ λ n t h.
      StatementPost-map _ _ (insert_history-done env n t e) λ _ t' d. subst (On p) (sym d) h

  pub create_return_tx-On : (r : ReturnEntry) → Ensures (On p) (create_return_tx env r) (λ _. On p)
  create_return_tx-On = create_return_tx-keeps env (On p) (λ t rs ts h. h)

  pub create_task_tx-On : (t : OutboxTask) → Ensures (On p) (create_task_tx env t) (λ _. On p)
  create_task_tx-On = create_task_tx-keeps env (On p) (λ t rs ts h. h)

  module _ (q : List Repository.Order → Type 0) where
    pub create_tx-On :
        (o : Repository.Order)
        → ((os : List Repository.Order)
            → p os
            → find_order o.id os ≡ none
            → q (os ++ order_row env o ∷ []))
        → Ensures (On p) (create_tx env o) (λ _. On q)
    unfolding create_tx
    create_tx-On o k = Ensures-exec (On p) _ env _ λ n t h.
        StatementPost-map _ _ (insert_order-done env n t o)
          λ _ t' d. subst (On q) (sym d.1) (k t.orders h d.0)

    pub update_tx-On :
        (o : Repository.Order)
        → ((os : List Repository.Order) → p os → q (update_rows env o os))
        → Ensures (On p) (update_tx env o) (λ _. On q)
    unfolding update_tx
    update_tx-On o k = Ensures-exec (On p) _ env _ λ n t h.
        StatementPost-map _ _ (update_order-done env n t o)
          λ _ t' d. subst (On q) (sym d) (k t.orders h)

    pub delete_tx-On :
        (id : String)
        → ((os : List Repository.Order) → p os → q (keep (λ o. not (o.id == id)) os))
        → Ensures (On p) (delete_tx env id) (λ _. On q)
    unfolding delete_tx delete_order
    delete_tx-On id k =
        Ensures-exec (On p) _ env _ λ n t h. record { at = λ a t' e. ground (arith, k t.orders h) }
