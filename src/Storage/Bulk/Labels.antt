-- ===== src/Storage/Bulk/Labels.antt =====
-- The labels of audit tasks, and those that the results of a batch call for.
use ozon_final.Base.{
  String, ◌≡◌, refl, ap, Bool, true, false, List, [], ◌∷◌, ◌++◌, if◌then◌else◌, arith,
}
use ozon_final.Repository.{OutboxTask}
use ozon_final.Storage.Bulk.{BulkResult, fail_all}

-- What an audit task says was done, and to which order.
abbrev pub label : OutboxTask → String × String
label t = (t.payload.action, t.payload.entity_id)

abbrev pub labels : List OutboxTask → List (String × String)
labels [] = []
labels (t ∷ ts) = label t ∷ labels ts

-- The action on every order that the results call a success, in their order.
abbrev pub expected : String → List BulkResult → List (String × String)
expected action [] = []
expected action (r ∷ rs) =
    let rest = expected action rs in if r.success then (action, r.order_id) ∷ rest else rest

pub labels-append :
    (ts : List OutboxTask) (t : OutboxTask) → labels (ts ++ t ∷ []) ≡ labels ts ++ label t ∷ []
labels-append [] t = refl
labels-append (x ∷ ts) t = ap (λ ls. label x ∷ ls) (labels-append ts t)

pub expected-append :
    (action : String) (rs : List BulkResult) (r : BulkResult)
    → expected action (rs ++ r ∷ []) ≡ expected action rs ++ expected action (r ∷ [])
expected-append action [] r = refl
expected-append action (x ∷ rs) r = by_test x.success (expected-append action rs r)
  where
    by_test :
        (b : Bool)
        → expected action (rs ++ r ∷ []) ≡ expected action rs ++ expected action (r ∷ [])
        → (if b
            then (action, x.order_id) ∷ expected action (rs ++ r ∷ [])
            else expected action (rs ++ r ∷ []))
          ≡ (if b then (action, x.order_id) ∷ expected action rs else expected action rs)
            ++ expected action (r ∷ [])
    by_test true e = ap (λ ls. (action, x.order_id) ∷ ls) e
    by_test false e = e

pub expected-fail_all :
    (action reason : String) (rs : List BulkResult) → expected action (fail_all reason rs) ≡ []
unfolding fail_all
expected-fail_all action reason [] = refl
expected-fail_all action reason (r ∷ rs) = ground (arith, expected-fail_all action reason rs)
