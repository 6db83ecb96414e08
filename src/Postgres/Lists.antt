-- ===== src/Postgres/Lists.antt =====
-- What the queries for lists select, and in which order.
use ozon_final.Base.{
  ℕ, ◌≤◌, ◌<◌, ◌^◌, String, ◌≡◌, refl, ◌≢◌, ◌⊎◌, inl, inr, Bool-cases, Bool, true, false, not, ◌&&◌,
  ◌||◌, List, All, All-map, length, leb, ltb, keep, if◌then◌else◌, ◌==◌, eq_iff, arith,
}
use mathlib.Core.List.{Perm}
use ozon_final.Base.Sorting.{sort_by, take}
use ozon_final.Base.Sorting.Items.{All-sort_by, keep-All, length-take, sort_by-perm}
use ozon_final.Base.Sorting.Order.{IsSorted, sort_by-IsSorted}
use ozon_final.Repository.{Order, HistoryEntry}
use ozon_final.World.{Env}
use ozon_final.Postgres.Orders.{user_rows, of_user, is_negative}
use ozon_final.Postgres.Returns.{history_rows}

-- The history of an order has the entries of that order, all of them and no others, each as often as it
-- stands in the table, from the oldest to the newest.
pub history_rows-IsSorted :
    (env : Env) (id : String) (hs : List HistoryEntry)
    → All (λ h. h.order_id ≡ id) (history_rows env id hs)
      × IsSorted (λ a b. a.changed_at ≤ b.changed_at) (history_rows env id hs)
      × Perm (history_rows env id hs) (keep (λ h. h.order_id == id) hs)
unfolding history_rows
history_rows-IsSorted env id hs = (
  All-sort_by _ _ _
      (All-map _ _ _ (λ h e. (eq_iff h.order_id id).0 e) (keep-All (λ h. h.order_id == id) hs)),
  sort_by-IsSorted _ _ (λ a b e. ground (arith, e)) (λ a b e. ground (arith, e)) _,
  sort_by-perm _ (keep (λ h. h.order_id == id) hs),
)

module _ (env : Env) (user : String) (active_only : Bool) where
  -- The order is the user's, and not issued or returned if only active ones are asked for.
  abbrev pub Selected : Order → Type 0
  Selected o =
      (o.recipient_id ≡ user)
      × ((active_only ≡ false) ⊎ ((o.status ≢ "issued") × (o.status ≢ "returned")))

  Selected-of_user : (o : Order) → of_user env user active_only o ≡ true → Selected o
  Selected-of_user o h =
      (ground (arith, eq_iff o.recipient_id user, h), by_flag (Bool-cases active_only))
    where
      by_flag :
          (active_only ≡ true) ⊎ (active_only ≡ false)
          → (active_only ≡ false) ⊎ ((o.status ≢ "issued") × (o.status ≢ "returned"))
      by_flag (inr e) = inl e
      by_flag (inl a) = inr (
        (λ e. ground (arith, eq_iff o.status "issued", h, a, e)),
        (λ e. ground (arith, eq_iff o.status "returned", h, a, e)),
      )

  rows : List Order → List Order
  rows os = sort_by (λ a b. leb b.created_at a.created_at) (keep (of_user env user active_only) os)

  rows-IsSorted :
      (os : List Order)
      → All Selected (rows os) × IsSorted (λ a b. b.created_at ≤ a.created_at) (rows os)
  unfolding rows
  rows-IsSorted os = (
    All-sort_by _ _ _ (All-map _ _ _ Selected-of_user (keep-All _ os)),
    sort_by-IsSorted _ _ (λ a b e. ground (arith, e)) (λ a b e. ground (arith, e)) _,
  )

  module _ (limit : ℕ) (os : List Order) where
    -- A positive limit bounds the number of orders.
    pub length-user_rows :
        0 < limit → limit < 2 ^ 63 → length (user_rows env user limit active_only os) ≤ limit
    unfolding user_rows
    length-user_rows x y =
        let test : (ltb 0 limit && not (is_negative limit)) ≡ true = ground (arith, x, y) in
        rw test (length-take limit _)

    -- Without a limit, `GetByUserID` returns all orders of the user, or, if only active ones are asked for,
    -- all of them that are neither issued nor returned, each as often as it stands in the table, from the
    -- newest to the oldest; a positive limit takes so many from the front of these.
    pub user_rows_lem :
        (found : List Order) × Perm found (
          keep
            (λ o.
              o.recipient_id == user
              && (not active_only || (not (o.status == "issued") && not (o.status == "returned"))))
            os)
        × All Selected found
        × IsSorted (λ a b. b.created_at ≤ a.created_at) found
        × (user_rows env user limit active_only os
            ≡ (if ltb 0 limit && not (is_negative limit) then take limit found else found))
    unfolding user_rows rows
    user_rows_lem = (
      rows os,
      sort_by-perm _ (keep (of_user env user active_only) os),
      (rows-IsSorted os).0,
      (rows-IsSorted os).1,
      refl,
    )
