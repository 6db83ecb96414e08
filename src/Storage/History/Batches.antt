-- ===== src/Storage/History/Batches.antt =====
-- The history and the steps of the bulk methods.
use ozon_final.Base.{ℕ, String, ◌≡◌, sym, true, none, arith}
use ozon_final.Errors.{Error, err, is_not_found}
use mathlib.Core.Path.{subst}
use ozon_final.Repository
use ozon_final.Repository.{OutboxTask, new_task, new_history}
use ozon_final.World.{Env, Tables, World, ◌>>=◌ as ◌>>=ₐ◌, now}
use ozon_final.Postgres.{query}
use ozon_final.Postgres.Orders.{find_order, get_by_id_tx}
use ozon_final.Postgres.Returns.{create_history_tx}
use ozon_final.Storage.{create_audit_payload}
use ozon_final.Storage.Bulk.{
  Attempt, ◌>>=◌, attempt, fetch, payload_of, check_issue, issue_one, check_accept, accept_one,
  finish,
}
use ozon_final.Storage.Bulk.Ensures.{
  AttemptEnsures, AttemptEnsures-attempt, AttemptEnsures-fetch, AttemptEnsures-bind,
}
use ozon_final.Storage.Tracked.{Tracked, Pending}
use ozon_final.Storage.History.{
  Ignores-Tracked, create_history_tx-Tracked, create_return_tx-keeps, get_by_id_tx-found,
}
use ozon_final.Storage.History.Bodies.{update_changed-Pending, Read}

module _ (env : Env) where
  -- A read leaves the working copy alone, however it ends.
  pub work-get_by_id_tx : (id : String) (w : World) → (get_by_id_tx env id w).1.work ≡ w.work
  unfolding get_by_id_tx ◌>>=ₐ◌ query
  work-get_by_id_tx id w = ground arith

  -- Where the error says that there is no row, there is none.
  pub get_by_id_tx-absent :
      (id : String) (w : World) (e : Error)
      → (get_by_id_tx env id w).0 ≡ err e
      → is_not_found e ≡ true
      → find_order id w.work.orders ≡ none
  unfolding get_by_id_tx ◌>>=ₐ◌ query
  get_by_id_tx-absent id w e h t = ground (arith, h, t)

  module _ (P S : Tables → Type 0) where
    pub check_issue-keeps :
        (user : String) (at : ℕ) (o : Repository.Order)
        → ((t : Tables) → P t → S t)
        → AttemptEnsures P (check_issue env user at o) (λ _. P) S
    unfolding check_issue
    check_issue-keeps user at o k = record { at = λ w h. ground (arith, k w.work h) }

    pub check_accept-keeps :
        (user : String) (at : ℕ) (o : Repository.Order)
        → ((t : Tables) → P t → S t)
        → AttemptEnsures P (check_accept env user at o) (λ _. P) S
    unfolding check_accept
    check_accept-keeps user at o k = record { at = λ w h. ground (arith, k w.work h) }

    pub payload_of-keeps :
        (action id user old new : String)
        → AttemptEnsures P (payload_of env action id user old new) (λ _. P) S
    unfolding payload_of create_audit_payload ◌>>=ₐ◌ now
    payload_of-keeps action id user old new = record { at = λ w h. h }

  Read-first :
      {A : Type 0} (id : String) (o : Repository.Order) (m : Attempt A)
      → (o.id ≡ id → AttemptEnsures Tracked m (λ _. Tracked) Tracked)
      → AttemptEnsures (Read env id o) m (λ _. Tracked) Tracked
  Read-first id o m k = record { at = λ w h. (k h.1).at w h.0.0 }

  fetch-Read :
      (pre id : String)
      → AttemptEnsures Tracked (fetch pre (get_by_id_tx env id)) (Read env id) Tracked
  fetch-Read pre id =
      AttemptEnsures-fetch Tracked (Read env id) Tracked pre _
        (λ w h _ _ _. subst Tracked (sym (work-get_by_id_tx id w)) h)
        (get_by_id_tx-found env Tracked id)

  -- The history entry, the payload and the end, which both steps share.
  record_history-Tracked :
      {V : Type 0} (reason pre id status action user old : String) (at : ℕ) (v : V)
      → AttemptEnsures {A = V × OutboxTask}
          (Pending id status)
          (attempt reason pre (create_history_tx env (new_history id status at)) >>= λ _.
            payload_of env action id user old status >>= λ payload.
            finish (v, new_task "audit_logs" payload))
          (λ _. Tracked)
          Tracked
  record_history-Tracked reason pre id status action user old at v =
      AttemptEnsures-bind (Pending id status) (λ _. Tracked) (λ _. Tracked) Tracked _ _
        (AttemptEnsures-attempt (Pending id status) (λ _. Tracked) Tracked _ _ _
          (create_history_tx-Tracked env _))
        λ _.
          AttemptEnsures-bind Tracked (λ _. Tracked) (λ _. Tracked) Tracked _ _
            (payload_of-keeps Tracked Tracked action id user old status)
            λ payload. record { at = λ w h. h }

  pub issue_one-Tracked :
      (user : String) (at : ℕ) (id : String)
      → AttemptEnsures Tracked (issue_one env user at id) (λ _. Tracked) Tracked
  unfolding issue_one
  issue_one-Tracked user at id =
      AttemptEnsures-bind Tracked (Read env id) (λ _. Tracked) Tracked _ _ (fetch-Read _ id)
        λ o. Read-first id o _ λ e.
          AttemptEnsures-bind Tracked (λ _. Tracked) (λ _. Tracked) Tracked _ _
            (check_issue-keeps Tracked Tracked user at o (λ t h. h))
            λ _.
              AttemptEnsures-bind Tracked (λ _. Pending id "issued") (λ _. Tracked) Tracked _ _
                (AttemptEnsures-attempt Tracked (λ _. Pending id "issued") Tracked _ _ _
                  (update_changed-Pending env id "issued" at o e))
                λ _. record_history-Tracked _ _ id "issued" "ORDER_ISSUED" user o.status at _

  pub accept_one-Tracked :
      (user : String) (at : ℕ) (id : String)
      → AttemptEnsures Tracked (accept_one env user at id) (λ _. Tracked) Tracked
  unfolding accept_one
  accept_one-Tracked user at id =
      AttemptEnsures-bind Tracked (Read env id) (λ _. Tracked) Tracked _ _ (fetch-Read _ id)
        λ o. Read-first id o _ λ e.
          AttemptEnsures-bind Tracked (λ _. Tracked) (λ _. Tracked) Tracked _ _
            (check_accept-keeps Tracked Tracked user at o (λ t h. h))
            λ _.
              AttemptEnsures-bind Tracked (λ _. Tracked) (λ _. Tracked) Tracked _ _
                (AttemptEnsures-attempt Tracked (λ _. Tracked) Tracked _ _ _
                  (create_return_tx-keeps env Tracked Ignores-Tracked _))
                λ _.
                  AttemptEnsures-bind Tracked (λ _. Pending id "returned") (λ _. Tracked) Tracked _
                    _
                    (AttemptEnsures-attempt Tracked (λ _. Pending id "returned") Tracked _ _ _
                      (update_changed-Pending env id "returned" at o e))
                    λ _.
                      record_history-Tracked _ _ id "returned" "ORDER_RETURN_ACCEPTED" user o.status
                        at _
