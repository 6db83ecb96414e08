-- ===== src/Storage/Rows/Batches.antt =====
-- The rows and the steps of the bulk methods.
use ozon_final.Base.{
  ℕ, ◌+◌, ◌≤◌, String, ◌≡◌, sym, Bool, false, none, List, ◌&&◌, ◌==◌, leb, eq_iff, arith,
}
use mathlib.Core.Path.{subst}
use ozon_final.Repository
use ozon_final.Repository.{OutboxTask, new_task, new_history, new_return}
use ozon_final.World.{Env, Tables}
use ozon_final.Postgres.Orders.{find_order, get_by_id_tx, update_rows}
use ozon_final.Postgres.Returns.{create_history_tx}
use ozon_final.Storage.Orders.{changed, return_period}
use ozon_final.Storage.Bulk.{
  ◌>>=◌, attempt, fetch, payload_of, check_issue, check_accept, issue_one, accept_one, finish,
}
use ozon_final.Storage.Bulk.Ensures.{
  AttemptEnsures, AttemptEnsures-attempt, AttemptEnsures-fetch, AttemptEnsures-bind,
}
use ozon_final.Storage.History.{get_by_id_tx-found}
use ozon_final.Storage.History.Batches.{work-get_by_id_tx, get_by_id_tx-absent, payload_of-keeps}
use ozon_final.Storage.Rows.{On, create_history_tx-On, create_return_tx-On, update_tx-On}
use ozon_final.Storage.Rows.Bodies.{Rows, ReadRows}

-- The checks of the two steps, as facts on the order that was read.
pub record Issuable (user : String) (at : ℕ) (o : Repository.Order) : Type 0 where
  pub owner : o.recipient_id ≡ user
  pub status : o.status ≡ "received"
  pub in_time : at ≤ o.storage_until

pub record Acceptable (user : String) (at : ℕ) (o : Repository.Order) : Type 0 where
  pub owner : o.recipient_id ≡ user
  pub status : o.status ≡ "issued"
  pub in_time : at ≤ o.updated_at + return_period

-- The same as tests.
abbrev pub issuable : String → ℕ → Repository.Order → Bool
issuable user at o = o.recipient_id == user && o.status == "received" && leb at o.storage_until

abbrev pub acceptable : String → ℕ → Repository.Order → Bool
acceptable user at o =
    o.recipient_id == user && o.status == "issued" && leb at (o.updated_at + return_period)

module _ (P S : Tables → Type 0) (user : String) (at : ℕ) (o : Repository.Order) where
  check_issue-Issuable :
      (env : Env)
      → ((t : Tables) → P t → issuable user at o ≡ false → S t)
      → AttemptEnsures P (check_issue env user at o) (λ _ t. P t × Issuable user at o) S
  unfolding check_issue
  check_issue-Issuable env k = record {
    at = λ w h. ground (arith, k w.work h, eq_iff o.recipient_id user, eq_iff o.status "received");
  }

  check_accept-Acceptable :
      (env : Env)
      → ((t : Tables) → P t → acceptable user at o ≡ false → S t)
      → AttemptEnsures P (check_accept env user at o) (λ _ t. P t × Acceptable user at o) S
  unfolding check_accept
  check_accept-Acceptable env k = record {
    at = λ w h. ground (arith, k w.work h, eq_iff o.recipient_id user, eq_iff o.status "issued");
  }

-- `p` before the step, `s` where it is skipped.
module _ (env : Env) (p s : Rows) where
  fetch-ReadRows :
      (pre id : String)
      → ((os : List Repository.Order) → p os → find_order id os ≡ none → s os)
      → AttemptEnsures (On p) (fetch pre (get_by_id_tx env id)) (λ o. On (ReadRows p id o)) (On s)
  fetch-ReadRows pre id absent =
      AttemptEnsures-fetch (On p) (λ o. On (ReadRows p id o)) (On s) pre _
        (λ w h e failed test.
          subst (On s) (sym (work-get_by_id_tx env id w))
            (absent w.work.orders h (get_by_id_tx-absent env id w e failed test)))
        (get_by_id_tx-found env (On p) id)

  record_history-On :
      {V : Type 0} (q : V → Rows) (reason pre id status action user old : String) (at : ℕ) (v : V)
      → AttemptEnsures {A = V × OutboxTask}
          (On (q v))
          (attempt reason pre (create_history_tx env (new_history id status at)) >>= λ _.
            payload_of env action id user old status >>= λ payload.
            finish (v, new_task "audit_logs" payload))
          (λ r. On (q r.0))
          (On s)
  record_history-On q reason pre id status action user old at v =
      AttemptEnsures-bind (On (q v)) (λ _. On (q v)) (λ r. On (q r.0)) (On s) _ _
        (AttemptEnsures-attempt (On (q v)) (λ _. On (q v)) (On s) _ _ _
          (create_history_tx-On env (q v) _))
        λ _.
          AttemptEnsures-bind (On (q v)) (λ _. On (q v)) (λ r. On (q r.0)) (On s) _ _
            (payload_of-keeps env (On (q v)) (On s) action id user old status)
            λ payload. record { at = λ w h. h }

  pub issue_one-Either :
      (q : Repository.Order → Rows) (user : String) (at : ℕ) (id : String)
      → ((os : List Repository.Order) → p os → find_order id os ≡ none → s os)
      → ((os : List Repository.Order) (o : Repository.Order)
          → ReadRows p id o os
          → issuable user at o ≡ false
          → s os)
      → ((os : List Repository.Order) (o : Repository.Order)
          → ReadRows p id o os
          → Issuable user at o
          → q (changed o "issued" at) (update_rows env (changed o "issued" at) os))
      → AttemptEnsures (On p) (issue_one env user at id) (λ r. On (q r.0)) (On s)
  unfolding issue_one
  issue_one-Either q user at id absent unfit k =
      AttemptEnsures-bind (On p) (λ o. On (ReadRows p id o)) (λ r. On (q r.0)) (On s) _ _
        (fetch-ReadRows _ id absent)
        λ o.
          let read : Rows = ReadRows p id o in
          let q' : Rows = q (changed o "issued" at) in
          let checked : Rows = λ os. ReadRows p id o os × Issuable user at o in
          AttemptEnsures-bind (On read) (λ _. On checked) (λ r. On (q r.0)) (On s) _ _
            (check_issue-Issuable (On read) (On s) user at o env (λ t h e. unfit t.orders o h e))
            λ _.
              AttemptEnsures-bind (On checked) (λ _. On q') (λ r. On (q r.0)) (On s) _ _
                (AttemptEnsures-attempt (On checked) (λ _. On q') (On s) _ _ _
                  (update_tx-On env checked q' (changed o "issued" at) (λ os h. k os o h.0 h.1)))
                λ _. record_history-On q _ _ id "issued" "ORDER_ISSUED" user o.status at _

  pub accept_one-Either :
      (q : Unit {0} → Rows) (user : String) (at : ℕ) (id : String)
      → ((os : List Repository.Order) → p os → find_order id os ≡ none → s os)
      → ((os : List Repository.Order) (o : Repository.Order)
          → ReadRows p id o os
          → acceptable user at o ≡ false
          → s os)
      → ((os : List Repository.Order) (o : Repository.Order)
          → ReadRows p id o os
          → Acceptable user at o
          → q tt (update_rows env (changed o "returned" at) os))
      → AttemptEnsures (On p) (accept_one env user at id) (λ r. On (q r.0)) (On s)
  unfolding accept_one
  accept_one-Either q user at id absent unfit k =
      AttemptEnsures-bind (On p) (λ o. On (ReadRows p id o)) (λ r. On (q r.0)) (On s) _ _
        (fetch-ReadRows _ id absent)
        λ o.
          let read : Rows = ReadRows p id o in
          let q' : Rows = q tt in
          let checked : Rows = λ os. ReadRows p id o os × Acceptable user at o in
          AttemptEnsures-bind (On read) (λ _. On checked) (λ r. On (q r.0)) (On s) _ _
            (check_accept-Acceptable (On read) (On s) user at o env (λ t h e. unfit t.orders o h e))
            λ _.
              AttemptEnsures-bind (On checked) (λ _. On checked) (λ r. On (q r.0)) (On s) _ _
                (AttemptEnsures-attempt (On checked) (λ _. On checked) (On s) _ _ _
                  (create_return_tx-On env checked _))
                λ _.
                  AttemptEnsures-bind (On checked) (λ _. On q') (λ r. On (q r.0)) (On s) _ _
                    (AttemptEnsures-attempt (On checked) (λ _. On q') (On s) _ _ _
                      (update_tx-On env checked q' (changed o "returned" at)
                        (λ os h. k os o h.0 h.1)))
                    λ _.
                      record_history-On q _ _ id "returned" "ORDER_RETURN_ACCEPTED" user o.status at
                        tt

-- The same where nothing is asked of the skipped step.
module _ (env : Env) (p s : Rows) (drop : (os : List Repository.Order) → p os → s os) where
  pub issue_one-On :
      (q : Repository.Order → Rows) (user : String) (at : ℕ) (id : String)
      → ((os : List Repository.Order) (o : Repository.Order)
          → ReadRows p id o os
          → Issuable user at o
          → q (changed o "issued" at) (update_rows env (changed o "issued" at) os))
      → AttemptEnsures (On p) (issue_one env user at id) (λ r. On (q r.0)) (On s)
  issue_one-On q user at id k =
      issue_one-Either env p s q user at id (λ os h e. drop os h) (λ os o r e. drop os r.0.0) k

  pub accept_one-On :
      (q : Unit {0} → Rows) (user : String) (at : ℕ) (id : String)
      → ((os : List Repository.Order) (o : Repository.Order)
          → ReadRows p id o os
          → Acceptable user at o
          → q tt (update_rows env (changed o "returned" at) os))
      → AttemptEnsures (On p) (accept_one env user at id) (λ r. On (q r.0)) (On s)
  accept_one-On q user at id k =
      accept_one-Either env p s q user at id (λ os h e. drop os h) (λ os o r e. drop os r.0.0) k
