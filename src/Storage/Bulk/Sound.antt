-- ===== src/Storage/Bulk/Sound.antt =====
-- What the results of the bulk methods say of the committed rows.
use ozon_final.Base.{
  ℕ, String, ◌≡◌, sym, true, Option, none, some, List, [], ◌∷◌, ◌++◌, All, All-append, eq_iff,
  arith,
}
use mathlib.Core.Path.{subst}
use mathlib.Core.Option
use ozon_final.Base.Dict.{Dict}
use ozon_final.Errors.{Error}
use ozon_final.Repository
use ozon_final.Repository.{OutboxTask}
use ozon_final.World.{Env, World, Answer, served, refused, lost, called}
use ozon_final.Postgres
use ozon_final.Postgres.{commit}
use ozon_final.Postgres.Orders.{find_order, update_rows}
use ozon_final.Postgres.Orders.Lookup.{find_order-update}
use ozon_final.Storage.Orders.{changed}
use ozon_final.Storage.Bulk.{
  BulkResult, Attempt, Batch, add_failure, fail_all, after_commit, bulk, issue_one, accept_one,
  issue_orders, accept_returns, cache_set_all, cache_delete_all,
}
use ozon_final.Postgres.Frozen.{Frozen}
use ozon_final.Storage.Frozen.{Frozen-issue_one, Frozen-accept_one}
use ozon_final.Storage.Bulk.Keeps.{AttemptKeeps}
use ozon_final.Storage.Bulk.Rule.{bulk-Of}
use ozon_final.Storage.Bulk.Ensures.{StepKeeps, insert_tasks-Post}
use ozon_final.Storage.Invariants.{db-cache_set_all, db-cache_delete_all}
use ozon_final.Storage.Rows.{On, create_task_tx-On}
use ozon_final.Storage.Rows.Bodies.{Rows, ReadRows}
use ozon_final.Storage.Rows.Batches.{issue_one-On, accept_one-On}

-- The row of the id has the status.
abbrev pub Holds : String → String → List Repository.Order → Type 0
Holds status id os =
    Option.map (λ (o : Repository.Order). o.status) (find_order id os) ≡ some status

-- Every success among the results is an order whose row has the status.
abbrev pub Sound : String → List BulkResult → List Repository.Order → Type 0
Sound status rs os = All (λ r. r.success ≡ true → Holds status r.order_id os) rs

module _ (env : Env) (status : String) where
  update-Holds :
      (os : List Repository.Order) (o : Repository.Order) (at : ℕ) (j : String)
      → Holds status j os
      → Holds status j (update_rows env (changed o status at) os)
  update-Holds os o at j h = ground (arith, find_order-update env (changed o status at) j os, h)

  update-itself :
      (os : List Repository.Order) (o : Repository.Order) (at : ℕ)
      → find_order o.id os ≡ some o
      → Holds status o.id (update_rows env (changed o status at) os)
  update-itself os o at h =
      ground (arith, find_order-update env (changed o status at) o.id os, eq_iff o.id o.id, h)

  update-Sound :
      (rs : List BulkResult) (os : List Repository.Order) (o : Repository.Order) (at : ℕ)
      → Sound status rs os
      → Sound status rs (update_rows env (changed o status at) os)
  update-Sound [] os o at h = tt
  update-Sound (r ∷ rs) os o at h =
      ((λ e. update-Holds os o at r.order_id (h.0 e)), update-Sound rs os o at h.1)

  fail_all-Sound :
      (reason : String) (rs : List BulkResult) (os : List Repository.Order)
      → Sound status (fail_all reason rs) os
  unfolding fail_all
  fail_all-Sound reason [] os = tt
  fail_all-Sound reason (r ∷ rs) os = ((λ e. ground (arith, e)), fail_all-Sound reason rs os)

  -- What a method returns without an error.
  abbrev Answered : (List BulkResult × Option Error) × World → Type 0
  Answered ((rs, none), w) = Sound status rs w.db.orders
  Answered ((rs, some e), w) = Unit

  module _ {V : Type 0} where
    abbrev SoFar : Batch V → Rows
    SoFar b os = Sound status b.results os

    add_failure-Sound :
        (b : Batch V) (id : String) (os : List Repository.Order)
        → SoFar b os
        → (reason : String) → SoFar (add_failure id reason b) os
    add_failure-Sound b id os h reason = All-append _ b.results _ h ((λ e. ground (arith, e)), tt)

    -- The rows once the id has passed.
    abbrev Next : Batch V → String → Rows
    Next b id =
        Sound status (b.results ++ record { order_id = id; success = true; error = "" } ∷ [])

    add_success-Sound :
        (b : Batch V) (id : String) (os : List Repository.Order) (o : Repository.Order) (at : ℕ)
        → ReadRows (SoFar b) id o os
        → Next b id (update_rows env (changed o status at) os)
    add_success-Sound b id os o at r =
        All-append _ b.results _ (update-Sound b.results os o at r.0.0) (
          (λ e.
              subst (λ key. Holds status key (update_rows env (changed o status at) os)) r.1
                (update-itself os o at
                  (subst (λ key. find_order key os ≡ some o) (sym r.1) r.0.1))),
          tt,
        )

    module _ (update : Dict V → World → World)
        (same : (d : Dict V) (w : World) → (update d w).db ≡ w.db) where
      after_commit-Sound :
          (b : Batch V) (a : Answer) (w : World)
          → SoFar b w.work.orders
          → Sound status
              (after_commit env update b (Postgres.committed env a w)).0
              (after_commit env update b (Postgres.committed env a w)).1.db.orders
      after_commit-Sound b served w h =
          subst (λ t. Sound status b.results t.orders) (sym (same b.touched _)) h
      after_commit-Sound b (refused m) w h = fail_all-Sound _ b.results w.db.orders
      after_commit-Sound b (lost m) w h = fail_all-Sound _ b.results w.work.orders

      bulk-Answered :
          (one : ℕ → String → Attempt (V × OutboxTask))
          → ((w : World) (at : ℕ) (id : String) → AttemptKeeps (Frozen w) (one at id))
          → ((at : ℕ) → StepKeeps (λ b. On (SoFar b)) (one at))
          → (begin_pre pre : String) (ids : List String) (w : World)
          → Answered (bulk env begin_pre pre update one ids w)
      unfolding commit
      bulk-Answered one kf keeps begin_pre pre ids w =
          bulk-Of env update (λ b. On (SoFar b)) (λ b. On (SoFar b)) Answered w (λ rs e w fr. tt)
            (λ b w fr h. after_commit-Sound b (env.answer w.calls) (called w) h)
            (λ pre b w h.
              insert_tasks-Post (On (SoFar b)) env (create_task_tx-On env (SoFar b)) pre b.tasks w
                h)
            one (kf w) keeps begin_pre pre ids tt tt

  no_error-Sound :
      (r : (List BulkResult × Option Error) × World)
      → Answered r
      → r.0.1 ≡ none
      → Sound status r.0.0 r.1.db.orders
  no_error-Sound ((rs, none), w) h e = h
  no_error-Sound ((rs, some x), w) h e = ground (arith, e)

module _ (env : Env) (user : String) (ids : List String) (w : World) where
  -- If `IssueOrders` returns no error, every order that its results call a success has a committed row
  -- in the status "issued", whatever the database answers.
  pub issue_orders-Sound :
      (issue_orders env user ids w).0.1 ≡ none
      → Sound "issued" (issue_orders env user ids w).0.0 (issue_orders env user ids w).1.db.orders
  unfolding issue_orders
  issue_orders-Sound = no_error-Sound env "issued" (issue_orders env user ids w) (
      bulk-Answered env "issued" (cache_set_all env) (db-cache_set_all env) (issue_one env user)
        (λ w. Frozen-issue_one {w₀ = w} env user)
        (λ at id b.
          issue_one-On env (SoFar env "issued" b)
            (λ os. (reason : String) → SoFar env "issued" (add_failure id reason b) os)
            (λ os h. add_failure-Sound env "issued" b id os h) (λ _. Next env "issued" b id) user at
            id (λ os o r c. add_success-Sound env "issued" b id os o at r))
        _ _ ids w)

  -- If `AcceptReturns` returns no error, every order that its results call a success has a committed
  -- row in the status "returned", whatever the database answers.
  pub accept_returns-Sound :
      (accept_returns env user ids w).0.1 ≡ none
      → Sound "returned"
          (accept_returns env user ids w).0.0
          (accept_returns env user ids w).1.db.orders
  unfolding accept_returns
  accept_returns-Sound = no_error-Sound env "returned" (accept_returns env user ids w) (
      bulk-Answered env "returned" (cache_delete_all env) (db-cache_delete_all env)
        (accept_one env user) (λ w. Frozen-accept_one {w₀ = w} env user)
        (λ at id b.
          accept_one-On env (SoFar env "returned" b)
            (λ os. (reason : String) → SoFar env "returned" (add_failure id reason b) os)
            (λ os h. add_failure-Sound env "returned" b id os h) (λ _. Next env "returned" b id)
            user at id (λ os o r c. add_success-Sound env "returned" b id os o at r))
        _ _ ids w)
