-- ===== src/Postgres/Outbox.antt =====
-- internal/repository/postgresql/outbox_task.go, with the table of
-- migrations/20250405180124_add_outbox_table.sql.
pub mod Selection
use ozon_final.Base.{
  ℕ, ◌+◌, String, Bool, true, false, not, ◌&&◌, ◌||◌, Option, none, some, List, [], ◌∷◌, ◌++◌, ltb,
  leb, eqb, if◌then◌else◌, keep, ◌==◌,
}
use Prim.Native.String.{◌++◌ as ◌++ₛ◌}
use ozon_final.Base.Sorting.{sort_by, take}
use ozon_final.Errors.{Error, not_found, wrap, Result, ok, err}
use ozon_final.Repository.{OutboxTask, TaskStatus, created, processing, failed, done}
use ozon_final.World.{
  Env, Tables, World, duplicate_key, out_of_range, negative_window, Action, pure, raise, lift,
  ◌>>=◌, ◌>>◌, now, new_id, map_error,
}
use ozon_final.Postgres.{Statement, Executor, in_tx, on_pool, violated, exec, query}
use ozon_final.Postgres.Orders.{is_negative, fits_integer}

abbrev pub is_task : ℕ → OutboxTask → Bool
is_task id t = eqb t.id id

unfoldable pub find_task : ℕ → List OutboxTask → Option OutboxTask
find_task id [] = none
find_task id (t ∷ ts) = if is_task id t then some t else find_task id ts

abbrev pub has_task : ℕ → List OutboxTask → Bool
has_task id ts = elim (find_task id ts) [ none ↦ false | some _ ↦ true ]

-- `WHERE status = 'CREATED' OR (status = 'FAILED' AND attempts < 5)`
abbrev pub is_processable : OutboxTask → Bool
is_processable t = elim t.status [
  | created ↦ true
  | processing ↦ false
  | failed ↦ ltb t.attempts 5
  | done ↦ false
]

module _ (env : Env) where
  -- The row of a new task: the status and `attempts` are the statement's and the column's.
  abbrev pub task_row : ℕ → ℕ → OutboxTask → OutboxTask
  task_row id at task = record task {
    id = id;
    status = created;
    attempts = 0;
    last_error = none;
    created_at = env.stored_time at;
    updated_at = env.stored_time at;
    completed_at = none;
  }

  unfoldable pub insert_task : ℕ → ℕ → OutboxTask → Statement (Unit {0})
  insert_task id at task n t =
      if has_task id t.outbox
      then violated env duplicate_key
      else ok (tt, record t { outbox = t.outbox ++ task_row id at task ∷ [] })

  -- `if task.ID == uuid.Nil { task.ID = uuid.New() }`
  abbrev pub id_of_task : OutboxTask → Action ℕ
  id_of_task task = if eqb task.id 0 then new_id env else pure task.id

  unfoldable pub create_task_tx : OutboxTask → Action (Unit {0})
  create_task_tx task = do
    id ← id_of_task task
    at ← now env
    map_error (wrap "failed to insert outbox task") (exec env in_tx (insert_task id at task))

  unfoldable pub processable_rows : ℕ → List OutboxTask → List OutboxTask
  processable_rows limit ts =
      take limit (sort_by (λ a b. leb a.updated_at b.updated_at) (keep is_processable ts))

  -- The query runs on the pool, whatever transaction is open.
  unfoldable pub get_processable_tasks : ℕ → Action (List OutboxTask)
  get_processable_tasks limit = map_error (wrap "failed to get processable outbox tasks") (
      query env on_pool λ t.
        if is_negative limit
        then violated env negative_window
        else ok (processable_rows limit t.outbox))

  abbrev pub set_task : TaskStatus → ℕ → Option String → Option ℕ → OutboxTask → OutboxTask
  set_task status attempts last_error completed_at t = record t {
    status = status;
    attempts = attempts;
    last_error = last_error;
    completed_at = elim completed_at [ none ↦ none | some at ↦ some (env.stored_time at) ];
  }

  unfoldable pub set_task_rows :
      ℕ → TaskStatus → ℕ → Option String → Option ℕ → List OutboxTask → List OutboxTask
  set_task_rows id status attempts last_error completed_at [] = []
  set_task_rows id status attempts last_error completed_at (t ∷ ts) =
      (if is_task id t then set_task status attempts last_error completed_at t else t)
      ∷ set_task_rows id status attempts last_error completed_at ts

  -- `UPDATE outbox_tasks … WHERE id = $1`, with the number of rows affected
  unfoldable pub update_task : ℕ → TaskStatus → ℕ → Option String → Option ℕ → Statement ℕ
  update_task id status attempts last_error completed_at n t =
      if not (fits_integer attempts)
      then violated env out_of_range
      else ok (
        if has_task id t.outbox then 1 else 0,
        record t { outbox = set_task_rows id status attempts last_error completed_at t.outbox },
      )

  abbrev affected : ℕ → Action (Unit {0})
  affected rows = if eqb rows 0 then raise not_found else pure tt

  -- `updateTaskStatusInternal`, on the transaction or on the pool
  unfoldable pub update_task_status_internal :
      Executor → ℕ → TaskStatus → ℕ → Option String → Option ℕ → Action (Unit {0})
  update_task_status_internal x id status attempts last_error completed_at = do
    rows ←
        map_error (wrap ("failed to update outbox task status for id " ++ₛ env.show_id id))
          (exec env x (update_task id status attempts last_error completed_at))
    affected rows

  unfoldable pub update_task_status_tx :
      ℕ → TaskStatus → ℕ → Option String → Option ℕ → Action (Unit {0})
  unfolding update_task_status_internal
  update_task_status_tx = update_task_status_internal in_tx

  unfoldable pub update_task_status :
      ℕ → TaskStatus → ℕ → Option String → Option ℕ → Action (Unit {0})
  unfolding update_task_status_internal
  update_task_status = update_task_status_internal on_pool
