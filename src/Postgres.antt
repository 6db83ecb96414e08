-- ===== src/Postgres.antt =====
-- internal/db/database.go: one statement on the pool or in the transaction, and the transaction's
-- begin, commit and rollback. The repositories of internal/repository/postgresql are the children.
pub mod Orders
pub mod Returns
pub mod Outbox
pub mod Users
pub mod Client
pub mod Frozen
pub mod Ensures
pub mod Done
pub mod Lists
use ozon_final.Base.{ℕ, String, Option, none, some}
use ozon_final.Errors.{Error, text, Result, ok, err}
use ozon_final.World.{Env, Tables, World, Answer, served, refused, lost, Violation, Action, called}

-- What the server does for a statement that writes: the new tables and what it returns, or the
-- violated constraint. The number is the one that a SERIAL column takes.
abbrev pub Statement : Type 0 → Type 0
Statement A = ℕ → Tables → Result (A × Tables)

-- Where a statement runs: in the transaction, or on the pool, where it commits at once.
pub data Executor : Type 0 where
  in_tx on_pool : Executor

abbrev pub tables_of : Executor → World → Tables
tables_of in_tx w = w.work
tables_of on_pool w = w.db

abbrev pub put_tables : Executor → Tables → World → World
put_tables in_tx t w = record w { work = t }
put_tables on_pool t w = record w { db = t }

module _ {A : Type 0} where
  abbrev pub settle : Executor → Answer → Result (A × Tables) → World → Result A × World
  settle x served (ok (a, t)) w = (ok a, put_tables x t w)
  settle x served (err e) w = (err e, w)
  settle x (refused m) r w = (err (text m), w)
  settle x (lost m) (ok (a, t)) w = (err (text m), put_tables x t w)
  settle x (lost m) (err e) w = (err (text m), w)

  abbrev pub answered : Answer → Result A → World → Result A × World
  answered served r w = (r, w)
  answered (refused m) r w = (err (text m), w)
  answered (lost m) r w = (err (text m), w)

module _ (env : Env) where
  abbrev pub violated {ℓ} : {A : Type ℓ} → Violation → Result A
  violated v = err (text (env.violation v))

  module _ {A : Type 0} where
    -- `Exec`
    unfoldable pub exec : Executor → Statement A → Action A
    exec x st w = settle x (env.answer w.calls) (st w.calls (tables_of x w)) (called w)

    -- `Get` and `Select`: what a query reads of the tables
    unfoldable pub query : Executor → (Tables → Result A) → Action A
    query x f w = answered (env.answer w.calls) (f (tables_of x w)) (called w)

  abbrev pub begun : Answer → World → Result (Unit {0}) × World
  begun served w = (ok tt, record w { work = w.db })
  begun (refused m) w = (err (text m), w)
  begun (lost m) w = (err (text m), w)

  -- `BeginTx`
  unfoldable pub begin_tx : Action (Unit {0})
  begin_tx w = begun (env.answer w.calls) (called w)

  abbrev pub committed : Answer → World → Result (Unit {0}) × World
  committed served w = (ok tt, record w { db = w.work })
  committed (refused m) w = (err (text m), w)
  committed (lost m) w = (err (text m), record w { db = w.work })

  -- `Transaction.Commit`
  unfoldable pub commit : Action (Unit {0})
  commit w = committed (env.answer w.calls) (called w)

  -- `Transaction.Rollback`: the working copy is dropped, however the call ends
  unfoldable pub rollback : Action (Unit {0})
  rollback w = answered (env.answer w.calls) (ok tt) (called w)
