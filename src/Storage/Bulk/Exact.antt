-- ===== src/Storage/Bulk/Exact.antt =====
-- Which orders `IssueOrders` and `AcceptReturns` change: exactly those of the list that fit.
use ozon_final.Base.{
  ℕ, ◌+◌, String, ◌≡◌, refl, sym, ap, ◌∙◌, Bool, true, false, ◌&&◌, ◌||◌, Option, none, some, List,
  [], ◌∷◌, ◌++◌, if◌then◌else◌, ◌==◌, eq_iff, arith,
}
use mathlib.Core.Path.{subst}
use mathlib.Core.Option
use ozon_final.Repository
use ozon_final.Repository.{OutboxTask}
use ozon_final.Base.Dict.{Dict}
use ozon_final.Errors.{Error, Result, ok, err}
use ozon_final.World.{Env, Tables, World, called, map_error}
use ozon_final.Postgres
use ozon_final.Postgres.{begin_tx, commit}
use ozon_final.Postgres.Ensures.{Post}
use ozon_final.Postgres.Orders.{find_order, update_rows, set_order}
use ozon_final.Postgres.Orders.Lookup.{find_order-update}
use ozon_final.Storage.Orders.{changed}
use ozon_final.Storage.Bulk.{
  BulkResult, Attempt, Batch, add_failure, after_commit, after_tasks, run_bulk, insert_tasks,
  end_bulk, bulk, empty_batch, process_all, issue_orders, accept_returns, issue_one, accept_one,
  cache_set_all, cache_delete_all,
}
use ozon_final.Storage.Bulk.Ensures.{StepKeeps, LoopPost, process_all-LoopPost, insert_tasks-Post}
use ozon_final.Storage.Bulk.Results.{ids_of, ids_of-append, Complete, process_all-Complete}
use ozon_final.Storage.Invariants.{db-cache_set_all, db-cache_delete_all}
use ozon_final.Storage.Rows.{On, create_task_tx-On}
use ozon_final.Storage.Rows.Bodies.{Rows, ReadRows}
use ozon_final.Storage.Rows.Batches.{
  Issuable, Acceptable, issuable, acceptable, issue_one-Either, accept_one-Either,
}
use ozon_final.Storage.Serving.{IsServing}

abbrev pub among : String → List String → Bool
among j [] = false
among j (id ∷ ids) = id == j || among j ids

among-append :
    (j : String) (ids : List String) (id : String)
    → among j (ids ++ id ∷ []) ≡ (among j ids || id == j)
among-append j [] id = ground arith
among-append j (k ∷ ids) id = ground (arith, among-append j ids id)

abbrev pub fitting : (Repository.Order → Bool) → Option Repository.Order → Bool
fitting fits none = false
fitting fits (some o) = fits o

module _ (env : Env) (status : String) (at : ℕ) (fits : Repository.Order → Bool) where
  abbrev pub moved : Repository.Order → Repository.Order
  moved o = set_order env (changed o status at) o

  -- What has become of a row.
  abbrev pub become : Bool → Option Repository.Order → Option Repository.Order
  become listed x = if listed && fitting fits x then Option.map moved x else x

  -- The rows once the ids have been processed.
  abbrev pub After : List Repository.Order → List String → Rows
  After base ids os = (j : String) → find_order j os ≡ become (among j ids) (find_order j base)

  skip-become :
      (d e : Bool) (x y : Option Repository.Order)
      → y ≡ become d x
      → (e ≡ true → fitting fits y ≡ false)
      → y ≡ become (d || e) x
  skip-become true e x y h k = h
  skip-become false false x y h k = h
  skip-become false true none y h k = h
  skip-become false true (some o) y h k =
      let unfit : fits o ≡ false = subst (λ z. fitting fits z ≡ false) h (k refl) in
      ground (arith, h, unfit)

  module _ (once : (o : Repository.Order) → fits (moved o) ≡ false) where
    pass-become :
        (d e : Bool) (x y : Option Repository.Order) (o : Repository.Order)
        → y ≡ become d x
        → (e ≡ true → y ≡ some o)
        → fits o ≡ true
        → (if e then Option.map (set_order env (changed o status at)) y else y) ≡ become (d || e) x
    pass-become true false x y o h k f = h
    pass-become false false x y o h k f = h
    pass-become d true none y o h k f = ground (arith, h, k refl)
    pass-become d true (some b) y o h k f = ground (arith, h, k refl, f, once b)

  module _ (base : List Repository.Order) (ids : List String) (id : String)
      (os : List Repository.Order) where
    add_skip :
        After base ids os → fitting fits (find_order id os) ≡ false → After base (ids ++ id ∷ []) os
    add_skip h unfit j =
        subst (λ b. find_order j os ≡ become b (find_order j base)) (sym (among-append j ids id))
          (skip-become (among j ids) (id == j) _ _ (h j)
            (λ e. subst (λ k. fitting fits (find_order k os) ≡ false) ((eq_iff id j).0 e) unfit))

    add_pass :
        ((o : Repository.Order) → fits (moved o) ≡ false)
        → (o : Repository.Order) → ReadRows (After base ids) id o os
        → fits o ≡ true
        → After base (ids ++ id ∷ []) (update_rows env (changed o status at) os)
    add_pass once o r f j =
        subst (λ y. y ≡ become (among j (ids ++ id ∷ [])) (find_order j base))
          (sym (find_order-update env (changed o status at) j os))
          (subst
            (λ b.
              (if o.id == j
                then Option.map (set_order env (changed o status at)) (find_order j os)
                else find_order j os)
              ≡ become b (find_order j base))
            (sym (among-append j ids id))
            (subst
              (λ k.
                (if k == j
                  then Option.map (set_order env (changed o status at)) (find_order j os)
                  else find_order j os)
                ≡ become (among j ids || id == j) (find_order j base))
              (sym r.1)
              (pass-become once (among j ids) (id == j) _ _ o (r.0.0 j)
                (λ e. subst (λ k. find_order k os ≡ some o) ((eq_iff id j).0 e) r.0.1) f)))

  -- What a method leaves behind without an error.
  abbrev Exact :
      List Repository.Order → List String → (List BulkResult × Option Error) × World → Type 0
  Exact base ids ((rs, none), w) = After base ids w.db.orders
  Exact base ids ((rs, some e), w) = Unit

  no_error-After :
      (base : List Repository.Order) (ids : List String)
      (r : (List BulkResult × Option Error) × World)
      → Exact base ids r
      → r.0.1 ≡ none
      → After base ids r.1.db.orders
  no_error-After base ids ((rs, none), w) h e = h
  no_error-After base ids ((rs, some x), w) h e = cc

  module _ {V : Type 0} (base : List Repository.Order) where
    abbrev SoFar : Batch V → Rows
    SoFar b = After base (ids_of b.results)

    -- The rows with one more result.
    abbrev Next : Batch V → BulkResult → Rows
    Next b r = After base (ids_of (b.results ++ r ∷ []))

    skip-Next :
        (b : Batch V) (r : BulkResult) (os : List Repository.Order)
        → SoFar b os
        → fitting fits (find_order r.order_id os) ≡ false
        → Next b r os
    skip-Next b r os h unfit =
        subst (λ l. After base l os) (sym (ids_of-append b.results r))
          (add_skip base (ids_of b.results) r.order_id os h unfit)

    pass-Next :
        ((o : Repository.Order) → fits (moved o) ≡ false)
        → (b : Batch V) (r : BulkResult) (os : List Repository.Order) (o : Repository.Order)
        → ReadRows (SoFar b) r.order_id o os
        → fits o ≡ true
        → Next b r (update_rows env (changed o status at) os)
    pass-Next once b r os o read f =
        subst (λ l. After base l (update_rows env (changed o status at) os))
          (sym (ids_of-append b.results r))
          (add_pass base (ids_of b.results) r.order_id os once o read f)

    module _ (serving : IsServing env) (ids : List String) (update : Dict V → World → World)
        (same : (d : Dict V) (w : World) → (update d w).db ≡ w.db) where
      after_tasks-Exact :
          (b : Batch V) (r : Result (Unit {0}) × World)
          → ids_of b.results ≡ ids
          → Post (λ _. On (SoFar b)) r
          → Exact base ids (after_tasks env update b r)
      unfolding commit
      after_tasks-Exact b (ok _, w) e h =
          subst
            (λ x. Exact base ids (
              let (rs, w') = after_commit env update b (Postgres.committed env x (called w)) in
              ((rs, none), w')))
            (sym (serving.always w.calls))
            (subst (λ (t : Tables). After base ids t.orders)
              (sym (same b.touched (record (called w) { db = w.work })))
              (subst (λ l. After base l w.work.orders) e h))
      after_tasks-Exact b (err x, w) e h = tt

      end_bulk-Exact :
          (pre : String) (r : Batch V × Option Error × World)
          → Complete ids r
          → LoopPost (λ b. On (SoFar b)) r
          → Exact base ids (end_bulk env pre update r)
      unfolding end_bulk
      end_bulk-Exact pre (b, none, w) e h =
          after_tasks-Exact b (insert_tasks env pre b.tasks w) e
            (insert_tasks-Post (On (SoFar b)) env (create_task_tx-On env (SoFar b)) pre b.tasks w h)
      end_bulk-Exact pre (b, some x, w) e h = tt

-- The whole method, with the time that it reads and the rows that it finds.
module _ (env : Env) (serving : IsServing env) (status : String)
    (fits : ℕ → Repository.Order → Bool)
    (once : (at : ℕ) (o : Repository.Order) → fits at (moved env status at (fits at) o) ≡ false)
    {V : Type 0} (update : Dict V → World → World)
    (same : (d : Dict V) (w : World) → (update d w).db ≡ w.db)
    (one : ℕ → String → Attempt (V × OutboxTask))
    (ks : (at : ℕ) (base : List Repository.Order)
      → StepKeeps (λ b. On (SoFar env status at (fits at) {V = V} base b)) (one at)) where
  bulk-Exact :
      (begin_pre pre : String) (ids : List String) (w : World)
      → Exact env status
          (env.clock w.readings)
          (fits (env.clock w.readings))
          w.db.orders
          ids
          (bulk env begin_pre pre update one ids w)
  unfolding bulk begin_tx map_error
  bulk-Exact begin_pre pre [] w = λ j. refl
  bulk-Exact begin_pre pre (id ∷ ids) w =
      let at : ℕ = env.clock w.readings in
      let base : List Repository.Order = w.db.orders in
      let begun : World = record (called w) { work = w.db; readings = w.readings + 1 } in
      subst
        (λ x. Exact env status at (fits at) base (id ∷ ids) (
          run_bulk env pre update one (id ∷ ids)
            (map_error (Error.wrap begin_pre) (λ w. Postgres.begun env x (called w)) w)))
        (sym (serving.always w.calls))
        (end_bulk-Exact env status at (fits at) base serving (id ∷ ids) update same pre
          (process_all (one at) (id ∷ ids) empty_batch begun)
          (process_all-Complete (one at) (id ∷ ids) empty_batch begun)
          (process_all-LoopPost (λ b. On (SoFar env status at (fits at) base b)) (one at)
            (ks at base) (id ∷ ids) empty_batch begun (λ j. refl)))

module _ (user : String) (at : ℕ) (o : Repository.Order) where
  Issuable-issuable : Issuable user at o → issuable user at o ≡ true
  Issuable-issuable c =
      ground (
        arith,
        c.owner,
        c.status,
        c.in_time,
        eq_iff o.recipient_id user,
        eq_iff o.status "received",
      )

  Acceptable-acceptable : Acceptable user at o → acceptable user at o ≡ true
  Acceptable-acceptable c =
      ground
        (arith, c.owner, c.status, c.in_time, eq_iff o.recipient_id user, eq_iff o.status "issued")

module _ (env : Env) (serving : IsServing env) (user : String) (ids : List String) (w : World) where
  -- With a database that serves every call, `IssueOrders` without an error has issued exactly those orders
  -- of its list that are the user's, are received, and whose storage period is not over at the time that it
  -- has read; every other row is as it was.
  pub issue_orders-After :
      (issue_orders env user ids w).0.1 ≡ none
      → After env "issued"
          (env.clock w.readings)
          (issuable user (env.clock w.readings))
          w.db.orders
          ids
          (issue_orders env user ids w).1.db.orders
  unfolding issue_orders
  issue_orders-After =
      no_error-After env "issued" (env.clock w.readings) (issuable user (env.clock w.readings))
        w.db.orders ids (issue_orders env user ids w)
        (bulk-Exact env serving "issued" (issuable user) (λ at o. ground arith) (cache_set_all env)
          (db-cache_set_all env) (issue_one env user)
          (λ at base id b.
            let fits : Repository.Order → Bool = issuable user at in
            let passed : BulkResult = record { order_id = id; success = true; error = "" } in
            let so_far : Rows = SoFar env "issued" at fits base b in
            issue_one-Either env so_far
              (λ os.
                (reason : String) → SoFar env "issued" at fits base (add_failure id reason b) os)
              (λ _. Next env "issued" at fits base b passed) user at id
              (λ os h e reason.
                skip-Next env "issued" at fits base b
                  (record { order_id = id; success = false; error = reason }) os h
                  (ap (fitting fits) e))
              (λ os o r e reason.
                skip-Next env "issued" at fits base b
                  (record { order_id = id; success = false; error = reason }) os r.0.0
                  (ap (fitting fits) r.0.1 ∙ e))
              (λ os o r c.
                pass-Next env "issued" at fits base (λ x. ground arith) b passed os o r
                  (Issuable-issuable user at o c)))
          _ _ ids w)

  -- With a database that serves every call, `AcceptReturns` without an error has returned exactly those
  -- orders of its list that are the user's, are issued, and whose return period is not over at the time that
  -- it has read; every other row is as it was.
  pub accept_returns-After :
      (accept_returns env user ids w).0.1 ≡ none
      → After env "returned"
          (env.clock w.readings)
          (acceptable user (env.clock w.readings))
          w.db.orders
          ids
          (accept_returns env user ids w).1.db.orders
  unfolding accept_returns
  accept_returns-After =
      no_error-After env "returned" (env.clock w.readings) (acceptable user (env.clock w.readings))
        w.db.orders ids (accept_returns env user ids w)
        (bulk-Exact env serving "returned" (acceptable user) (λ at o. ground arith)
          (cache_delete_all env) (db-cache_delete_all env) (accept_one env user)
          (λ at base id b.
            let fits : Repository.Order → Bool = acceptable user at in
            let passed : BulkResult = record { order_id = id; success = true; error = "" } in
            let so_far : Rows = SoFar env "returned" at fits base b in
            accept_one-Either env so_far
              (λ os.
                (reason : String) → SoFar env "returned" at fits base (add_failure id reason b) os)
              (λ _. Next env "returned" at fits base b passed) user at id
              (λ os h e reason.
                skip-Next env "returned" at fits base b
                  (record { order_id = id; success = false; error = reason }) os h
                  (ap (fitting fits) e))
              (λ os o r e reason.
                skip-Next env "returned" at fits base b
                  (record { order_id = id; success = false; error = reason }) os r.0.0
                  (ap (fitting fits) r.0.1 ∙ e))
              (λ os o r c.
                pass-Next env "returned" at fits base (λ x. ground arith) b passed os o r
                  (Acceptable-acceptable user at o c)))
          _ _ ids w)
