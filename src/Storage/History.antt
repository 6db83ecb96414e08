-- ===== src/Storage/History.antt =====
-- What each repository method of a transaction ensures of the history: a new or changed status is
-- pending until its entry is written.
pub mod Bodies
pub mod Batches
use Prim.Native.String.{◌++◌}
use ozon_final.Base.{
  ℕ, ◌+◌, String, ◌≡◌, refl, sym, Bool, true, false, Option, none, some, List, [], ◌∷◌, eqb,
  if◌then◌else◌, ◌==◌, arith,
}
use mathlib.Core.Path.{subst}
use ozon_final.Base.Dict.{Dict}
use ozon_final.Errors.{Error, Result, ok, err}
use ozon_final.Repository
use ozon_final.Repository.{HistoryEntry, ReturnEntry, OutboxTask, new_history}
use ozon_final.World.{Env, Tables, World, Action, pure, raise, ◌>>=◌, map_error, now, new_id}
use ozon_final.Postgres.{in_tx, exec, query}
use ozon_final.Postgres.Ensures.{
  Ensures, Ensures-pure, Ensures-raise, Ensures-if, Ensures-map_error, Ensures-exec, Ensures-query,
  Ensures-bind, Ensures-now, Ensures-new_id, Ensures-fact, StatementPost-map,
}
use ozon_final.Postgres.Done.{
  insert_order-done, update_order-done, insert_return-done, insert_history-done, insert_task-done,
}
use ozon_final.Postgres.Orders.{
  find_order, create_tx, get_by_id_tx, update_tx, delete_tx, or_not_found, order_row,
}
use ozon_final.Postgres.Orders.Lookup.{id-find_order}
use ozon_final.Postgres.Returns.{create_return_tx, create_history_tx}
use ozon_final.Postgres.Outbox.{create_task_tx, id_of_task}
use ozon_final.Storage.{Order, Return, create_audit_payload}
use ozon_final.Storage.Orders.{
  create_audit_task, changed, add_order_body, change_status, update_status_body, delete_order_body,
  check_return, record_return, add_return_body,
}
use ozon_final.Storage.Tracked.{
  Tracked, Pending, append_order-Pending, update_rows-Pending, append_history-Tracked,
  delete_order-Tracked,
}

-- What the tables of orders and history alone decide is kept by the inserts into the others.
abbrev pub Ignores : (Tables → Type 0) → Type 0
Ignores P =
    (t : Tables) (rs : List ReturnEntry) (ts : List OutboxTask)
    → P t
    → P (record t { returns = rs; outbox = ts })

module _ (env : Env) where
  pub create_tx-Pending :
      (o : Repository.Order) → Ensures Tracked (create_tx env o) (λ _. Pending o.id o.status)
  unfolding create_tx
  create_tx-Pending o = Ensures-exec Tracked _ env _ λ n t h.
      StatementPost-map _ _ (insert_order-done env n t o) λ _ t' d.
        subst (Pending o.id o.status) (sym d.1) (append_order-Pending t (order_row env o) h d.0)

  pub update_tx-Pending :
      (o : Repository.Order) → Ensures Tracked (update_tx env o) (λ _. Pending o.id o.status)
  unfolding update_tx
  update_tx-Pending o = Ensures-exec Tracked _ env _ λ n t h.
      StatementPost-map _ _ (update_order-done env n t o)
        λ _ t' d. subst (Pending o.id o.status) (sym d) (update_rows-Pending t env o h)

  pub create_history_tx-Tracked :
      (h : HistoryEntry)
      → Ensures (Pending h.order_id h.status) (create_history_tx env h) (λ _. Tracked)
  unfolding create_history_tx
  create_history_tx-Tracked e = Ensures-exec (Pending e.order_id e.status) _ env _ λ n t h.
      StatementPost-map _ _ (insert_history-done env n t e)
        λ _ t' d. subst Tracked (sym d) (append_history-Tracked t _ h)

  module _ (P : Tables → Type 0) where
    pub create_return_tx-keeps :
        Ignores P → (r : ReturnEntry) → Ensures P (create_return_tx env r) (λ _. P)
    unfolding create_return_tx
    create_return_tx-keeps k r = Ensures-exec P _ env _ λ n t h.
        StatementPost-map _ _ (insert_return-done env n t r)
          λ _ t' d. subst P (sym d) (k t _ t.outbox h)

    pub create_task_tx-keeps :
        Ignores P → (task : OutboxTask) → Ensures P (create_task_tx env task) (λ _. P)
    unfolding create_task_tx
    create_task_tx-keeps k task =
        Ensures-bind P (λ _. P) (λ _. P) _ _
          (Ensures-if P (λ _. P) (eqb task.id 0) _ _ (λ _. Ensures-new_id P env)
            (λ _. Ensures-pure P (λ _. P) _ (λ t h. h)))
          λ id.
            Ensures-bind P (λ _. P) (λ _. P) _ _ (Ensures-now P env)
              λ at.
                Ensures-map_error P (λ _. P) _ _
                  (Ensures-exec P _ env _ λ n t h.
                    StatementPost-map _ _ (insert_task-done env n t id at task)
                      λ _ t' d. subst P (sym d) (k t t.returns _ h))

  found :
      (P : Tables → Type 0) (id : String) (o : Option Repository.Order)
      → Ensures
          (λ t. P t × (find_order id t.orders ≡ o))
          (or_not_found env o)
          (λ o t. (P t × (find_order id t.orders ≡ some o)) × (o.id ≡ id))
  found P id none = Ensures-raise _ _ _
  found P id (some o) = Ensures-pure _ _ o (λ t h. (h, id-find_order id t.orders h.1))

  pub get_by_id_tx-found :
      (P : Tables → Type 0) (id : String)
      → Ensures P
          (get_by_id_tx env id)
          (λ o t. (P t × (find_order id t.orders ≡ some o)) × (o.id ≡ id))
  unfolding get_by_id_tx
  get_by_id_tx-found P id =
      Ensures-bind P (λ o t. P t × (find_order id t.orders ≡ o)) _ _ _
        (Ensures-query P _ env _ (λ t h x e. (h, ground arith))) (found P id)

pub Ignores-Tracked : Ignores Tracked
Ignores-Tracked t rs ts h = record { at = h.at }

pub Ignores-Pending : (id status : String) → Ignores (Pending id status)
Ignores-Pending id status t rs ts h = record { others = h.others; this = h.this }
