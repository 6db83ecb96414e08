-- ===== src/Storage/Serving.antt =====
-- A method of one transaction with a database that serves every call.
use ozon_final.Base.{ℕ, String, ◌≡◌, refl, sym, ap, none}
use mathlib.Core.Path.{subst}
use ozon_final.Errors.{Result, ok, err}
use ozon_final.World.{Env, Tables, World, served, Action, called, pure, continue, ◌>>=◌}
use ozon_final.Postgres
use ozon_final.Postgres.{commit}
use ozon_final.Postgres.Ensures.{Ensures, Post}
use ozon_final.Storage.{committed, close_tx, run_body, in_transaction}
use ozon_final.Storage.Orders.{begin_wrapped}
use ozon_final.Storage.Calls.{error_of}
use ozon_final.Storage.Frozen.{begin_wrapped-work}
use ozon_final.Storage.Rows.{On}
use ozon_final.Storage.Rows.Bodies.{Rows}

-- The server executes every call, and every reply arrives.
pub record IsServing (env : Env) : Type 0 where
  pub always : (n : ℕ) → env.answer n ≡ served

module _ {A : Type 0} (Q : Rows) where
  -- Without an error, the committed rows have `Q`.
  abbrev pub Done : Result A × World → Type 0
  Done (ok a, w) = Q w.db.orders
  Done (err e, w) = Unit

  pub on_success :
      (r : Result A × World) → Done r → (error_of r).0 ≡ none → Q (error_of r).1.db.orders
  on_success (ok a, w) h e = h
  on_success (err x, w) h e = cc

pub forget-Done :
    {A : Type 0} (Q : Rows) (m : Action A) (w : World)
    → Done Q (m w)
    → Done Q ((m >>= λ _. pure (tt {0})) w)
unfolding ◌>>=◌
forget-Done {A} Q m w h = by_result (m w) h
  where
    by_result : (r : Result A × World) → Done Q r → Done Q (continue r.0 (λ _. pure (tt {0})) r.1)
    by_result (ok a, w') k = k
    by_result (err e, w') k = tt

module _ (env : Env) (serving : IsServing env) where
  module _ {A : Type 0} (update : A → World → World)
      (same : (a : A) (w : World) → (update a w).db ≡ w.db) (Q : Rows) where
    close_tx-Done :
        (r : Result A × World) → Post (λ _. On Q) r → Done Q (r.0, close_tx env update r)
    unfolding close_tx commit
    close_tx-Done (ok a, w) h =
        subst (λ x. Q (committed update a (Postgres.committed env x (called w))).db.orders)
          (sym (serving.always w.calls)) (subst (λ (t : Tables). Q t.orders) (sym (same a _)) h)
    close_tx-Done (err e, w) h = tt

    run_body-Done :
        (w₀ : World) (body : Action A) (r : Result (Unit {0}) × World)
        → (r.0 ≡ ok tt → r.1.work ≡ w₀.db)
        → Ensures (On (λ os. os ≡ w₀.db.orders)) body (λ _. On Q)
        → Done Q (run_body env update body r)
    run_body-Done w₀ body (ok _, w) copied ke =
        close_tx-Done (body w) (ke.at w (ap (λ t. t.orders) (copied refl)))
    run_body-Done w₀ body (err e, w) copied ke = tt

    pub in_transaction-Done :
        (pre : String) (body : Action A) (w₀ : World)
        → Ensures (On (λ os. os ≡ w₀.db.orders)) body (λ _. On Q)
        → Done Q (in_transaction env (begin_wrapped env pre) update body w₀)
    unfolding in_transaction
    in_transaction-Done pre body w₀ ke =
        run_body-Done w₀ body (begin_wrapped env pre w₀) (begin_wrapped-work env pre w₀) ke
