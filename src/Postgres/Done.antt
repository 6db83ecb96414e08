-- ===== src/Postgres/Done.antt =====
-- What the tables are after each statement that the server accepts.
use ozon_final.Base.{ℕ, ◌≡◌, none, [], ◌∷◌, ◌++◌, arith}
use ozon_final.Repository.{Order, ReturnEntry, HistoryEntry, OutboxTask}
use ozon_final.World.{Env, Tables}
use ozon_final.Postgres.Ensures.{StatementPost}
use ozon_final.Postgres.Orders.{find_order, insert_order, update_order, update_rows, order_row}
use ozon_final.Postgres.Returns.{insert_return, insert_history}
use ozon_final.Postgres.Outbox.{insert_task, task_row}

module _ (env : Env) (n : ℕ) (t : Tables) where
  pub insert_order-done :
      (o : Order)
      → StatementPost
          (λ _ t'.
            (find_order o.id t.orders ≡ none)
            × (t' ≡ record t { orders = t.orders ++ order_row env o ∷ [] }))
          (insert_order env o n t)
  unfolding insert_order
  insert_order-done o = record { at = λ a t' e. ground arith }

  pub update_order-done :
      (o : Order)
      → StatementPost
          (λ _ t'. t' ≡ record t { orders = update_rows env o t.orders })
          (update_order env o n t)
  unfolding update_order
  update_order-done o = record { at = λ a t' e. ground arith }

  pub insert_return-done :
      (r : ReturnEntry)
      → StatementPost
          (λ _ t'. t' ≡ record t {
            returns =
                t.returns ++ record r { id = n; returned_at = env.stored_time r.returned_at } ∷ [];
          })
          (insert_return env r n t)
  unfolding insert_return
  insert_return-done r = record { at = λ a t' e. ground arith }

  pub insert_history-done :
      (h : HistoryEntry)
      → StatementPost
          (λ _ t'. t' ≡ record t {
            history =
                t.history ++ record h { id = n; changed_at = env.stored_time h.changed_at } ∷ [];
          })
          (insert_history env h n t)
  unfolding insert_history
  insert_history-done h = record { at = λ a t' e. ground arith }

  pub insert_task-done :
      (id at : ℕ) (task : OutboxTask)
      → StatementPost
          (λ _ t'. t' ≡ record t { outbox = t.outbox ++ task_row env id at task ∷ [] })
          (insert_task env id at task n t)
  unfolding insert_task
  insert_task-done id at task = record { at = λ a t' e. ground arith }
