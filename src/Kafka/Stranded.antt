-- ===== src/Kafka/Stranded.antt =====
-- The tasks that `processBatch` has marked and does not come to send.
use ozon_final.Base.{ℕ, ◌≡◌, ◌≢◌, refl, sym, List, [], ◌∷◌, All, arith}
use mathlib.Core.Path.{subst}
use ozon_final.Errors.{Error, wrap, Result, ok, err}
use ozon_final.Repository.{OutboxTask}
use ozon_final.World.{
  Env, Tables, World, quiet, Answer, served, refused, lost, called, mapped, pure, continue, ◌>>=◌,
  map_error,
}
use ozon_final.Postgres
use ozon_final.Postgres.{exec, in_tx, settle, begin_tx, commit, rollback}
use ozon_final.Postgres.Outbox.{get_processable_tasks}
use ozon_final.Kafka.Publisher.{
  PublisherConfig, mark_tasks, send_tasks, claim_body, or_rollback, claim, process_batch,
}
use ozon_final.Kafka.Marked.{IsMarked, mark_tasks-All}

module _ (env : Env) where
  -- The transaction, once the tasks are selected.
  abbrev Claimed : Result (List OutboxTask) × World → Type 0
  Claimed (ok ts, w) = All (λ t. IsMarked t.id w.work.outbox) ts
  Claimed (err e, w) = Unit

  marked-Claimed :
      (ts : List OutboxTask) (r : Result (Unit {0}) × World)
      → (r.0 ≡ ok tt → All (λ t. IsMarked t.id r.1.work.outbox) ts)
      → Claimed (continue r.0 (λ _. pure ts) r.1)
  marked-Claimed ts (ok _, w) h = h refl
  marked-Claimed ts (err e, w) h = tt

  selected-Claimed :
      (r : Result (List OutboxTask) × World)
      → Claimed (continue r.0 (λ ts. mark_tasks env ts >>= λ _. pure ts) r.1)
  unfolding ◌>>=◌
  selected-Claimed (ok ts, w) = marked-Claimed ts (mark_tasks env ts w) (mark_tasks-All env ts w)
  selected-Claimed (err e, w) = tt

  claim_body-Claimed : (n : ℕ) (w : World) → Claimed (claim_body env n w)
  unfolding claim_body ◌>>=◌
  claim_body-Claimed n w =
      selected-Claimed
        (map_error (wrap "failed to get processable tasks") (get_processable_tasks env n) w)

  -- What is committed, once the tasks are marked.
  abbrev Committed : Result (List OutboxTask) × World → Type 0
  Committed (ok ts, w) = All (λ t. IsMarked t.id w.db.outbox) ts
  Committed (err e, w) = Unit

  committed-Committed :
      (f : Error → Error) (ts : List OutboxTask) (a : Answer) (w : World)
      → All (λ t. IsMarked t.id w.work.outbox) ts
      → Committed (
          continue
            (mapped f (Postgres.committed env a w).0)
            (λ _. pure ts)
            (Postgres.committed env a w).1)
  committed-Committed f ts served w h = h
  committed-Committed f ts (refused m) w h = tt
  committed-Committed f ts (lost m) w h = tt

  after_body :
      (f : List OutboxTask → Error → Error) (r : Result (List OutboxTask) × World)
      → Claimed r
      → Committed (
          continue
            (or_rollback env r).0
            (λ ts. map_error (f ts) (commit env) >>= λ _. pure ts)
            (or_rollback env r).1)
  unfolding ◌>>=◌ map_error commit
  after_body f (ok ts, w) h = committed-Committed (f ts) ts (env.answer w.calls) (called w) h
  after_body f (err e, w) h = tt

  after_begin :
      (n : ℕ) (f : List OutboxTask → Error → Error) (r : Result (Unit {0}) × World)
      → Committed (
          continue r.0
            (λ _. (λ w. or_rollback env (claim_body env n w)) >>= λ ts.
              map_error (f ts) (commit env) >>= λ _. pure ts)
            r.1)
  unfolding ◌>>=◌
  after_begin n f (ok _, w) = after_body f (claim_body env n w) (claim_body-Claimed n w)
  after_begin n f (err e, w) = tt

  claim-Committed : (n : ℕ) (w : World) → Committed (claim env n w)
  unfolding claim ◌>>=◌
  claim-Committed n w = after_begin n _ (map_error _ (begin_tx env) w)

  -- A second loop that finds a signal at once sends nothing and writes nothing.
  send_tasks-stopped :
      (ts : List OutboxTask) (w : World)
      → env.signal w.selects ≢ quiet
      → ((send_tasks env ts w).1.db ≡ w.db) × ((send_tasks env ts w).1.sent ≡ w.sent)
  unfolding send_tasks
  send_tasks-stopped [] w h = (refl, refl)
  send_tasks-stopped (t ∷ ts) w h = ground (arith, h)

  on_ok :
      (r : Result (List OutboxTask) × World) {ts : List OutboxTask}
      → Committed r
      → r.0 ≡ ok ts
      → All (λ t. IsMarked t.id r.1.db.outbox) ts
  on_ok (ok xs, w) {ts} h e =
      let same : xs ≡ ts = ground (arith, e) in subst (All (λ t. IsMarked t.id w.db.outbox)) same h
  on_ok (err x, w) h e = ground (arith, e)

  stopped-All :
      (r : Result (List OutboxTask) × World) {ts : List OutboxTask}
      → Committed r
      → r.0 ≡ ok ts
      → env.signal r.1.selects ≢ quiet
      → All (λ t. IsMarked t.id (continue r.0 (send_tasks env) r.1).1.db.outbox) ts
        × ((continue r.0 (send_tasks env) r.1).1.sent ≡ r.1.sent)
  stopped-All (ok xs, w) {ts} h e s =
      let stopped = send_tasks-stopped xs w s in
      (
        subst (λ (t : Tables). All (λ (x : OutboxTask). IsMarked x.id t.outbox) ts) (sym stopped.0)
            (on_ok (ok xs, w) h e),
        stopped.1,
      )
  stopped-All (err x, w) h e s = ground (arith, e)

  -- If `processBatch` has committed a batch of tasks as PROCESSING and then finds the shutdown or the
  -- end of its context, every task of the batch is PROCESSING in the committed outbox when it returns,
  -- and none of them has been sent.
  pub process_batch-stranded :
      (config : PublisherConfig) (w : World) {ts : List OutboxTask}
      → (claim env config.batch_size w).0 ≡ ok ts
      → env.signal (claim env config.batch_size w).1.selects ≢ quiet
      → All (λ t. IsMarked t.id (process_batch env config w).1.db.outbox) ts
        × ((process_batch env config w).1.sent ≡ (claim env config.batch_size w).1.sent)
  unfolding process_batch ◌>>=◌
  process_batch-stranded config w =
      stopped-All (claim env config.batch_size w) (claim-Committed config.batch_size w)
