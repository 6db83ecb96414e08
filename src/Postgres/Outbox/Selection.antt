-- ===== src/Postgres/Outbox/Selection.antt =====
-- Which outbox tasks `GetProcessableTasks` selects.
use ozon_final.Base.{
  ℕ, ◌≤◌, ◌<◌, ◌≡◌, refl, ◌⊎◌, Bool, true, false, List, All, All-map, length, keep, ltb, leb, arith,
}
use mathlib.Core.List.{Perm}
use ozon_final.Base.Sorting.{take}
use ozon_final.Base.Sorting.Items.{All-sort_by, keep-All, length-take, sort_by-perm}
use ozon_final.Base.Sorting.Order.{IsSorted, sort_by-IsSorted}
use ozon_final.Repository.{OutboxTask, created, processing, failed, done}
use ozon_final.World.{Env}
use ozon_final.Postgres.Outbox.{processable_rows, is_processable}

-- The task is new, or has failed with fewer than five attempts.
abbrev pub Eligible : OutboxTask → Type 0
Eligible t = (t.status ≡ created) ⊎ ((t.status ≡ failed) × (t.attempts < 5))

-- The same as a test.
abbrev pub eligible : OutboxTask → Bool
eligible t = elim t.status [
  | created ↦ true
  | processing ↦ false
  | failed ↦ ltb t.attempts 5
  | done ↦ false
]

is_processable-Eligible : (t : OutboxTask) → is_processable t ≡ true → Eligible t
is_processable-Eligible t h = ground (arith, h)

-- There is a list of the tasks that are new or have failed with fewer than five attempts, all of them and
-- no others, each as often as it stands in the table, from the one that was updated first to the one that
-- was updated last; the selection is its front of the limit's length.
pub processable_rows_lem :
    (env : Env) (limit : ℕ) (ts : List OutboxTask)
    → (found : List OutboxTask) × Perm found (keep eligible ts)
      × All Eligible found
      × IsSorted (λ a b. a.updated_at ≤ b.updated_at) found
      × (processable_rows env limit ts ≡ take limit found)
      × (length (processable_rows env limit ts) ≤ limit)
unfolding processable_rows
processable_rows_lem env limit ts = (
  _,
  sort_by-perm (λ a b. leb a.updated_at b.updated_at) (keep is_processable ts),
  All-sort_by _ _ _ (All-map _ _ _ is_processable-Eligible (keep-All is_processable ts)),
  sort_by-IsSorted _ _ (λ a b e. ground (arith, e)) (λ a b e. ground (arith, e)) _,
  refl,
  length-take limit _,
)
