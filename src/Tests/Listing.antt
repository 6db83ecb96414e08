-- ===== src/Tests/Listing.antt =====
-- The queries for lists on two orders.
use ozon_final.Base.{◌≤◌, ◌≡◌, true, not, ◌&&◌, ◌||◌, List, All, keep, ◌==◌}
use ozon_final.Base.Sorting.Order.{IsSorted}
use ozon_final.Postgres.Lists.{Selected, user_rows_lem, history_rows-IsSorted}
use ozon_final.Postgres.Orders.{user_rows}
use ozon_final.Postgres.Returns.{history_rows}
use ozon_final.Repository.{Order}
use ozon_final.Base.Sorting.{take}
use mathlib.Core.List.{Perm}
use ozon_final.Tests.{calm, tables}

user_rows_lem_example :
    (found : List Order) × Perm found (
      keep
        (λ o.
          o.recipient_id == "u"
          && (not true || (not (o.status == "issued") && not (o.status == "returned"))))
        tables.orders)
    × All (Selected calm "u" true) found
    × IsSorted (λ a b. b.created_at ≤ a.created_at) found
    × (user_rows calm "u" 1 true tables.orders ≡ take 1 found)
user_rows_lem_example = user_rows_lem calm "u" true 1 tables.orders

history_rows-IsSorted_example :
    All (λ h. h.order_id ≡ "b") (history_rows calm "b" tables.history)
    × IsSorted (λ a b. a.changed_at ≤ b.changed_at) (history_rows calm "b" tables.history)
    × Perm (history_rows calm "b" tables.history) (keep (λ h. h.order_id == "b") tables.history)
history_rows-IsSorted_example = history_rows-IsSorted calm "b" tables.history
