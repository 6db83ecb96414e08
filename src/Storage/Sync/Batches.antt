-- ===== src/Storage/Sync/Batches.antt =====
-- The cache against the committed rows after a bulk method.
use ozon_final.Base.{String, ◌≡◌, refl, sym, ◌∙◌, ◌⊎◌, inl, inr, none, some, List}
use mathlib.Core.Path.{subst}
use ozon_final.Base.Dict.{Dict, lookup, insert}
use ozon_final.Repository
use ozon_final.World.{Env, World}
use ozon_final.Postgres.Orders.{find_order, order_row, update_rows}
use ozon_final.Storage.Orders.{changed}
use ozon_final.Storage.Bulk.{
  Batch, add_failure, add_success, issue_one, accept_one, cache_set_all, cache_delete_all,
  empty_batch,
}
use ozon_final.Storage.Bulk
use ozon_final.Storage.Frozen.{Frozen-issue_one, Frozen-accept_one}
use ozon_final.Storage.Invariants.{db-cache_set_all, db-cache_delete_all}
use ozon_final.Storage.Rows.Bodies.{Rows}
use ozon_final.Storage.Rows.Batches.{issue_one-On, accept_one-On}
use ozon_final.Storage.Committed.{IsHonest, Synced, bulk-Synced}
use ozon_final.Storage.Coherence.{IsStable, Known}
use ozon_final.Storage.Coherence.Batches.{
  Issuing, Accepting, AgreesBut, issue-Issuing, accept-Accepting, cache_set_all-Known,
  cache_delete_all-Known,
}

module _ (env : Env) (honest : IsHonest env) (stable : IsStable env)
    (P : String → Repository.Order → Type 0) (w : World) (h : Synced (Known env P) w) where
  abbrev IssuingRows : Batch Repository.Order → Rows
  IssuingRows b = Issuing env w.db.orders b.touched

  abbrev AcceptingRows : Batch (Unit {0}) → Rows
  AcceptingRows b = Accepting env w.db.orders b.touched

  -- Outside the map of a loop the cache agrees with the rows, as it did at the start.
  agrees :
      {V : Type 0} (d : Dict V) (os : List Repository.Order) (c : Dict Repository.Order)
      → c ≡ w.cache
      → ((j : String) → lookup j d ≡ none → find_order j os ≡ find_order j w.db.orders)
      → AgreesBut env P d os c
  agrees d os c same others j x out e =
      let at_start : lookup j w.cache ≡ some x = subst (λ c'. lookup j c' ≡ some x) same e in
      by_case (h.coherent j x at_start)
    where
      by_case :
          ((x.id ≡ j) × (find_order j w.db.orders ≡ some (order_row env x))) ⊎ P j x
          → ((x.id ≡ j) × (find_order j os ≡ some (order_row env x))) ⊎ P j x
      by_case (inl k) = inl (k.0, others j out ∙ k.1)
      by_case (inr k) = inr k

  pub issue_orders-Known :
      (user : String) (ids : List String)
      → Synced (Known env P) (Bulk.issue_orders env user ids w).1
  unfolding Bulk.issue_orders
  issue_orders-Known user ids =
      bulk-Synced env honest (Known env P) (cache_set_all env) IssuingRows w
        (λ b w' same i.
          subst (λ t. Known env P t.orders (cache_set_all env b.touched w').cache)
            (sym (db-cache_set_all env b.touched w'))
            (cache_set_all-Known env w'.db.orders i.stored b.touched w' i.entries
              (agrees b.touched w'.db.orders w'.cache same i.others)))
        (issue_one env user) (Frozen-issue_one env user)
        (λ at id b.
          issue_one-On env (IssuingRows b)
            (λ os. (reason : String) → IssuingRows (add_failure id reason b) os) (λ os i reason. i)
            (λ o. Issuing env w.db.orders (insert id o b.touched)) user at id
            λ os o r checked.
              subst
                (λ key.
                  Issuing env w.db.orders (insert key (changed o "issued" at) b.touched)
                    (update_rows env (changed o "issued" at) os))
                r.1
                (issue-Issuing env stable w.db.orders os o "issued" at
                  (subst (λ key. find_order key os ≡ some o) (sym r.1) r.0.1)
                  (r.0.0.stored id o r.0.1) b.touched r.0.0))
        _ _ ids h (record { stored = h.stored; entries = tt; others = λ j e. refl })

  pub accept_returns-Known :
      (user : String) (ids : List String)
      → Synced (Known env P) (Bulk.accept_returns env user ids w).1
  unfolding Bulk.accept_returns
  accept_returns-Known user ids =
      bulk-Synced env honest (Known env P) (cache_delete_all env) AcceptingRows w
        (λ b w' same i.
          subst (λ t. Known env P t.orders (cache_delete_all env b.touched w').cache)
            (sym (db-cache_delete_all env b.touched w'))
            (cache_delete_all-Known env w'.db.orders i.stored b.touched w'
              (agrees b.touched w'.db.orders w'.cache same i.others)))
        (accept_one env user) (Frozen-accept_one env user)
        (λ at id b.
          accept_one-On env (AcceptingRows b)
            (λ os. (reason : String) → AcceptingRows (add_failure id reason b) os)
            (λ os i reason. i) (λ u. Accepting env w.db.orders (insert id u b.touched)) user at id
            λ os o r checked.
              subst
                (λ key.
                  Accepting env w.db.orders (insert key tt b.touched)
                    (update_rows env (changed o "returned" at) os))
                r.1
                (accept-Accepting env stable w.db.orders os o "returned" at
                  (subst (λ key. find_order key os ≡ some o) (sym r.1) r.0.1)
                  (r.0.0.stored id o r.0.1) b.touched r.0.0))
        _ _ ids h (record { stored = h.stored; others = λ j e. refl })
