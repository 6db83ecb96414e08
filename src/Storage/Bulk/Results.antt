-- ===== src/Storage/Bulk/Results.antt =====
-- The results of the bulk methods against the list of ids that they are given.
use ozon_final.Base.{
  ℕ, String, ◌≡◌, refl, sym, ◌∙◌, ap, Option, none, some, List, [], ◌∷◌, ◌++◌, arith,
}
use mathlib.Core.List.{append_assoc, append-nil}
use mathlib.Core.Path.{subst}
use ozon_final.Base.Dict.{Dict}
use ozon_final.Errors.{Error, Result, ok, err}
use ozon_final.Repository.{OutboxTask}
use ozon_final.World.{Env, World}
use ozon_final.Postgres.{commit}
use ozon_final.Storage.Orders.{begin_wrapped}
use ozon_final.Storage.Bulk.{
  BulkResult, Attempt, Outcome, passed, skipped, broken, Batch, add_success, add_failure,
  empty_batch, process_all, fail_all, insert_tasks, after_commit, after_tasks, end_bulk, run_bulk,
  bulk, issue_orders, accept_returns, issue_one, accept_one,
}

abbrev pub ids_of : List BulkResult → List String
ids_of [] = []
ids_of (r ∷ rs) = r.order_id ∷ ids_of rs

pub ids_of-append :
    (rs : List BulkResult) (r : BulkResult) → ids_of (rs ++ r ∷ []) ≡ ids_of rs ++ r.order_id ∷ []
ids_of-append [] r = refl
ids_of-append (x ∷ rs) r = ap (λ ids. x.order_id ∷ ids) (ids_of-append rs r)

ids_of-fail_all : (reason : String) (rs : List BulkResult) → ids_of (fail_all reason rs) ≡ ids_of rs
unfolding fail_all
ids_of-fail_all reason [] = refl
ids_of-fail_all reason (r ∷ rs) = ground (arith, ids_of-fail_all reason rs)

-- Without an error there is a result for each id.
abbrev AllAnswered : List String → List BulkResult × Option Error → Type 0
AllAnswered ids (rs, none) = ids_of rs ≡ ids
AllAnswered ids (rs, some e) = Unit

no_error :
    (ids : List String) (r : List BulkResult × Option Error)
    → AllAnswered ids r
    → r.1 ≡ none
    → ids_of r.0 ≡ ids
no_error ids (rs, none) h e = h
no_error ids (rs, some x) h e = cc

module _ {V : Type 0} where
  -- A loop that has not been broken has a result for each id that it had before and each new one.
  abbrev pub Complete : List String → Batch V × Option Error × World → Type 0
  Complete ids (b, none, w) = ids_of b.results ≡ ids
  Complete ids (b, some e, w) = Unit

  pub process_all-Complete :
      (one : String → Attempt (V × OutboxTask)) (ids : List String) (b : Batch V) (w : World)
      → Complete (ids_of b.results ++ ids) (process_all one ids b w)
  unfolding process_all
  process_all-Complete one [] b w = sym (append-nil (ids_of b.results))
  process_all-Complete one (id ∷ ids) b w =
      let (out, w') = one id w in next out w' (process_all-Complete one ids)
    where
      moved :
          (r : BulkResult)
          → r.order_id ≡ id
          → ids_of (b.results ++ r ∷ []) ++ ids ≡ ids_of b.results ++ id ∷ ids
      moved r same =
          ap (λ rs. rs ++ ids) (ids_of-append b.results r)
          ∙ (append_assoc (ids_of b.results) (r.order_id ∷ []) ids
              ∙ ap (λ i. ids_of b.results ++ i ∷ ids) same)

      next :
          (out : Outcome (V × OutboxTask)) (w' : World)
          → ((b' : Batch V) (w'' : World)
              → Complete (ids_of b'.results ++ ids) (process_all one ids b' w''))
          → Complete
              (ids_of b.results ++ id ∷ ids)
              (elim out as (λ _. Batch V × Option Error × World) [
                | passed p ↦ process_all one ids (add_success id p b) w'
                | skipped reason ↦ process_all one ids (add_failure id reason b) w'
                | broken reason e ↦ (add_failure id reason b, some e, w')
              ])
      next (passed p) w' rest =
          subst (λ l. Complete l (process_all one ids (add_success id p b) w')) (moved _ refl)
            (rest (add_success id p b) w')
      next (skipped reason) w' rest =
          subst (λ l. Complete l (process_all one ids (add_failure id reason b) w')) (moved _ refl)
            (rest (add_failure id reason b) w')
      next (broken reason e) w' rest = tt

  module _ (env : Env) (update : Dict V → World → World) (ids : List String) where
    after_commit-ids :
        (b : Batch V) (r : Result (Unit {0}) × World)
        → ids_of (after_commit env update b r).0 ≡ ids_of b.results
    after_commit-ids b (ok _, w) = refl
    after_commit-ids b (err e, w) = ids_of-fail_all _ b.results

    after_tasks-AllAnswered :
        (b : Batch V) (r : Result (Unit {0}) × World)
        → ids_of b.results ≡ ids
        → AllAnswered ids (after_tasks env update b r).0
    after_tasks-AllAnswered b (ok _, w) h = after_commit-ids b (commit env w) ∙ h
    after_tasks-AllAnswered b (err e, w) h = tt

    end_bulk-AllAnswered :
        (pre : String) (r : Batch V × Option Error × World)
        → Complete ids r
        → AllAnswered ids (end_bulk env pre update r).0
    unfolding end_bulk
    end_bulk-AllAnswered pre (b, none, w) h =
        after_tasks-AllAnswered b (insert_tasks env pre b.tasks w) h
    end_bulk-AllAnswered pre (b, some e, w) h = tt

    run_bulk-AllAnswered :
        (pre : String) (one : ℕ → String → Attempt (V × OutboxTask)) (r : Result (Unit {0}) × World)
        → AllAnswered ids (run_bulk env pre update one ids r).0
    run_bulk-AllAnswered pre one (ok _, w) =
        end_bulk-AllAnswered pre _
          (process_all-Complete (one (env.clock w.readings)) ids empty_batch _)
    run_bulk-AllAnswered pre one (err e, w) = tt

  bulk-AllAnswered :
      (env : Env) (begin_pre pre : String) (update : Dict V → World → World)
      (one : ℕ → String → Attempt (V × OutboxTask)) (ids : List String) (w : World)
      → AllAnswered ids (bulk env begin_pre pre update one ids w).0
  unfolding bulk
  bulk-AllAnswered env begin_pre pre update one [] w = refl
  bulk-AllAnswered env begin_pre pre update one (id ∷ ids) w =
      run_bulk-AllAnswered env update (id ∷ ids) pre one (begin_wrapped env begin_pre w)

module _ (env : Env) (user : String) (ids : List String) (w : World) where
  -- `IssueOrders` without an error returns one result for each id, in the order of the ids, also where
  -- the commit fails.
  pub ids_of-issue_orders :
      (issue_orders env user ids w).0.1 ≡ none → ids_of (issue_orders env user ids w).0.0 ≡ ids
  unfolding issue_orders
  ids_of-issue_orders =
      no_error ids (issue_orders env user ids w).0
        (bulk-AllAnswered env _ _ _ (issue_one env user) ids w)

  -- `AcceptReturns` without an error returns one result for each id, in the order of the ids, also
  -- where the commit fails.
  pub ids_of-accept_returns :
      (accept_returns env user ids w).0.1 ≡ none → ids_of (accept_returns env user ids w).0.0 ≡ ids
  unfolding accept_returns
  ids_of-accept_returns =
      no_error ids (accept_returns env user ids w).0
        (bulk-AllAnswered env _ _ _ (accept_one env user) ids w)
