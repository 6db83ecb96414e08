-- ===== src/Storage/Tracked.antt =====
-- The status of an order and the last one that its history records: what each statement of the
-- storage methods does to the two.
use ozon_final.Base.{ℕ, String, ◌≡◌, ◌≢◌, none, some, [], ◌∷◌, ◌++◌, eq_iff, arith}
use ozon_final.Repository.{Order, HistoryEntry}
use ozon_final.World.{Env, Tables}
use ozon_final.Postgres.Ensures.{StatementPost}
use ozon_final.Postgres.Orders.{find_order, update_rows, delete_order}
use ozon_final.Postgres.Orders.Lookup.{find_order-append, find_order-remove, find_order-update}
use ozon_final.Postgres.Returns.Status.{last_status, last_status-append, last_status-remove}

-- Every order's status is the last one in its history.
pub record Tracked (t : Tables) : Type 0 where
  pub at :
      (id : String) (o : Order)
      → find_order id t.orders ≡ some o
      → last_status id t.history ≡ some o.status

-- The same for every order but one, which is there and has the given status.
pub record Pending (id status : String) (t : Tables) : Type 0 where
  pub others :
      (j : String) (o : Order)
      → j ≢ id
      → find_order j t.orders ≡ some o
      → last_status j t.history ≡ some o.status
  pub this : (o : Order) → find_order id t.orders ≡ some o → o.status ≡ status

module _ (t : Tables) where
  pub append_order-Pending :
      (o : Order)
      → Tracked t
      → find_order o.id t.orders ≡ none
      → Pending o.id o.status (record t { orders = t.orders ++ o ∷ [] })
  append_order-Pending o h fresh = record {
    others = λ j x ne e. ground (arith, find_order-append j t.orders o, eq_iff o.id j, h.at j x);
    this = λ x e. ground (arith, find_order-append o.id t.orders o, eq_iff o.id o.id);
  }

  pub update_rows-Pending :
      (env : Env) (o : Order)
      → Tracked t
      → Pending o.id o.status (record t { orders = update_rows env o t.orders })
  update_rows-Pending env o h = record {
    others =
        λ j x ne e. ground (arith, find_order-update env o j t.orders, eq_iff o.id j, h.at j x);
    this = λ x e. ground (arith, find_order-update env o o.id t.orders, eq_iff o.id o.id);
  }

  pub append_history-Tracked :
      (h : HistoryEntry)
      → Pending h.order_id h.status t
      → Tracked (record t { history = t.history ++ h ∷ [] })
  append_history-Tracked h p = record {
    at = λ j x e.
        ground
          (arith, last_status-append j t.history h, eq_iff h.order_id j, p.others j x, p.this x);
  }

  pub delete_order-Tracked :
      (env : Env) (n : ℕ) (id : String)
      → Tracked t
      → StatementPost (λ _. Tracked) (delete_order env id n t)
  unfolding delete_order
  delete_order-Tracked env n id h = record {
    at = λ a t' done. record {
      at = λ j o e.
          ground
            (arith, find_order-remove id j t.orders, last_status-remove id j t.history, h.at j o);
    };
  }
