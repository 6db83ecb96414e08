-- ===== src/Postgres/Frozen.antt =====
-- The committed tables and the cache under a statement in the transaction. One rule for each method of
-- the repositories that runs in a transaction.
use ozon_final.Base.{String, ◌≡◌, refl, Option, none, some, eqb, arith}
use ozon_final.Errors.{Result, ok, err}
use ozon_final.Repository.{Order, ReturnEntry, HistoryEntry, OutboxTask}
use ozon_final.World.{Env, World, Tables, Answer, served, refused, lost, now, new_id}
use ozon_final.World.Keeps.{Keeps, Keeps-pure, Keeps-raise, Keeps-bind, Keeps-map_error, Keeps-if}
use ozon_final.Postgres.{Statement, in_tx, settle, answered, exec, query, begin_tx, rollback}
use ozon_final.Postgres.Orders.{create_tx, get_by_id_tx, update_tx, delete_tx, or_not_found}
use ozon_final.Postgres.Returns.{create_return_tx, create_history_tx}
use ozon_final.Postgres.Outbox.{create_task_tx}

-- The committed tables, the cache and the messages sent are those of the first state.
pub record Frozen (w₀ w : World) : Type 0 where
  pub db : w.db ≡ w₀.db
  pub cache : w.cache ≡ w₀.cache
  pub sent : w.sent ≡ w₀.sent

pub Frozen-refl : (w : World) → Frozen w w
Frozen-refl w = record { db = refl; cache = refl; sent = refl }

module _ {w₀ : World} where
  pub Frozen-now : (env : Env) → Keeps (Frozen w₀) (now env)
  unfolding now
  Frozen-now env = record { at = λ w h. record { db = h.db; cache = h.cache; sent = h.sent } }

  pub Frozen-new_id : (env : Env) → Keeps (Frozen w₀) (new_id env)
  unfolding new_id
  Frozen-new_id env = record { at = λ w h. record { db = h.db; cache = h.cache; sent = h.sent } }

  Frozen-settle :
      {A : Type 0} (a : Answer) (r : Result (A × Tables)) (w : World)
      → Frozen w₀ w
      → Frozen w₀ (settle in_tx a r w).1
  Frozen-settle served (ok (a, t)) w h = record { db = h.db; cache = h.cache; sent = h.sent }
  Frozen-settle served (err e) w h = h
  Frozen-settle (refused m) r w h = h
  Frozen-settle (lost m) (ok (a, t)) w h = record { db = h.db; cache = h.cache; sent = h.sent }
  Frozen-settle (lost m) (err e) w h = h

  Frozen-answered :
      {A : Type 0} (a : Answer) (r : Result A) (w : World)
      → Frozen w₀ w
      → Frozen w₀ (answered a r w).1
  Frozen-answered served r w h = h
  Frozen-answered (refused m) r w h = h
  Frozen-answered (lost m) r w h = h

  module _ (env : Env) where
    pub Frozen-exec : {A : Type 0} (st : Statement A) → Keeps (Frozen w₀) (exec env in_tx st)
    unfolding exec
    Frozen-exec st = record {
      at = λ w h.
          Frozen-settle (env.answer w.calls) (st w.calls w.work) _
            (record { db = h.db; cache = h.cache; sent = h.sent });
    }

    pub Frozen-query : {A : Type 0} (f : Tables → Result A) → Keeps (Frozen w₀) (query env in_tx f)
    unfolding query
    Frozen-query f = record {
      at = λ w h.
          Frozen-answered (env.answer w.calls) (f w.work) _
            (record { db = h.db; cache = h.cache; sent = h.sent });
    }

    pub Frozen-begin_tx : Keeps (Frozen w₀) (begin_tx env)
    unfolding begin_tx
    Frozen-begin_tx = record { at = λ w h. ground arith }

    pub Frozen-rollback : Keeps (Frozen w₀) (rollback env)
    unfolding rollback
    Frozen-rollback = record {
      at = λ w h.
          Frozen-answered (env.answer w.calls) (ok tt) _
            (record { db = h.db; cache = h.cache; sent = h.sent });
    }

    pub Frozen-create_tx : (o : Order) → Keeps (Frozen w₀) (create_tx env o)
    unfolding create_tx
    Frozen-create_tx o = Frozen-exec _

    pub Frozen-update_tx : (o : Order) → Keeps (Frozen w₀) (update_tx env o)
    unfolding update_tx
    Frozen-update_tx o = Frozen-exec _

    pub Frozen-delete_tx : (id : String) → Keeps (Frozen w₀) (delete_tx env id)
    unfolding delete_tx
    Frozen-delete_tx id = Frozen-exec _

    pub Frozen-create_return_tx : (r : ReturnEntry) → Keeps (Frozen w₀) (create_return_tx env r)
    unfolding create_return_tx
    Frozen-create_return_tx r = Frozen-exec _

    pub Frozen-create_history_tx : (h : HistoryEntry) → Keeps (Frozen w₀) (create_history_tx env h)
    unfolding create_history_tx
    Frozen-create_history_tx h = Frozen-exec _

    Frozen-or_not_found : (o : Option Order) → Keeps (Frozen w₀) (or_not_found env o)
    Frozen-or_not_found none = Keeps-raise _
    Frozen-or_not_found (some o) = Keeps-pure o

    pub Frozen-get_by_id_tx : (id : String) → Keeps (Frozen w₀) (get_by_id_tx env id)
    unfolding get_by_id_tx
    Frozen-get_by_id_tx id = Keeps-bind _ _ (Frozen-query _) Frozen-or_not_found

    pub Frozen-create_task_tx : (t : OutboxTask) → Keeps (Frozen w₀) (create_task_tx env t)
    unfolding create_task_tx
    Frozen-create_task_tx t =
        Keeps-bind _ _ (Keeps-if (eqb t.id 0) _ _ (Frozen-new_id env) (Keeps-pure t.id))
          λ id. Keeps-bind _ _ (Frozen-now env) λ at. Keeps-map_error _ _ (Frozen-exec _)
