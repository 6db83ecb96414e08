-- ===== src/Storage/Silent.antt =====
-- The deferred commit of a method runs when the result is already set.
use ozon_final.Base.{String, ◌≡◌, refl, arith}
use mathlib.Core.Path.{subst}
use ozon_final.Errors.{Result, ok, err}
use ozon_final.World.{Env, World, Answer, served, refused, lost, Action, called}
use ozon_final.World.Keeps.{Keeps}
use ozon_final.Postgres
use ozon_final.Postgres.{commit}
use ozon_final.Postgres.Frozen.{Frozen, Frozen-refl}
use ozon_final.Storage.{Order, committed, close_tx, run_body, in_transaction}
use ozon_final.Storage.Orders.{begin, add_order, add_order_body}
use ozon_final.Storage.Frozen.{Frozen-begin, Frozen-add_order_body}

module _ {A : Type 0} (env : Env) (update : A → World → World) (w₀ : World) where
  -- What is left of a call whose commit was refused.
  abbrev Silent : A → Result A × World → Type 0
  Silent a (r, w) = (r ≡ ok a) × ((w.db ≡ w₀.db) × (w.cache ≡ w₀.cache))

  refused_commit :
      (a : A) (m : String) (answer : Answer) (w : World)
      → answer ≡ refused m
      → Frozen w₀ w
      → Silent a (ok a, committed update a (Postgres.committed env answer w))
  refused_commit a m served w e f = ground (arith, e)
  refused_commit a m (refused x) w e f = (refl, (f.db, f.cache))
  refused_commit a m (lost x) w e f = ground (arith, e)

  close_tx-Silent :
      (a : A) (m : String) (r : Result A × World)
      → r.0 ≡ ok a
      → env.answer r.1.calls ≡ refused m
      → Frozen w₀ r.1
      → Silent a (r.0, close_tx env update r)
  unfolding close_tx commit
  close_tx-Silent a m (ok x, w) e h f =
      let same : x ≡ a = ground (arith, e) in
      subst
        (λ y.
          Silent y
            (ok x, committed update x (Postgres.committed env (env.answer w.calls) (called w))))
        same
        (refused_commit x m (env.answer w.calls) (called w) h
          (record { db = f.db; cache = f.cache; sent = f.sent }))
  close_tx-Silent a m (err x, w) e h f = ground (arith, e)

  run_body-Silent :
      (a : A) (m : String) (body : Action A) (r : Result (Unit {0}) × World)
      → r.0 ≡ ok tt
      → (body r.1).0 ≡ ok a
      → env.answer (body r.1).1.calls ≡ refused m
      → Keeps (Frozen w₀) body
      → Frozen w₀ r.1
      → Silent a (run_body env update body r)
  run_body-Silent a m body (ok _, w) b e h k f = close_tx-Silent a m (body w) e h (k.at w f)
  run_body-Silent a m body (err x, w) b e h k f = ground (arith, b)

-- Suppose that the transaction of `AddOrder` begins, its body succeeds, and the server refuses the commit
-- that follows. Then `AddOrder` still returns no error, although neither the tables nor the cache have
-- changed.
pub add_order-Silent :
    (env : Env) (o : Order) (w : World) (m : String)
    → (begin env w).0 ≡ ok tt
    → (add_order_body env o (begin env w).1).0 ≡ ok tt
    → env.answer (add_order_body env o (begin env w).1).1.calls ≡ refused m
    → ((add_order env o w).0 ≡ ok tt)
      × (((add_order env o w).1.db ≡ w.db) × ((add_order env o w).1.cache ≡ w.cache))
unfolding add_order in_transaction
add_order-Silent env o w m b e h =
    run_body-Silent env _ w tt m (add_order_body env o) (begin env w) b e h
      (Frozen-add_order_body env o) ((Frozen-begin env _).at w (Frozen-refl w))
