-- ===== src/Postgres/Orders/Lookup.antt =====
-- The row of an order after each statement on the table `orders`, in the form of a test on the id.
use ozon_final.Base.{
  String, ◌≡◌, refl, Bool, true, false, not, Option, none, some, List, [], ◌∷◌, ◌++◌, All, keep,
  if◌then◌else◌, ◌==◌, eq_iff, arith,
}
use mathlib.Core.Path.{subst}
use mathlib.Core.Option
use ozon_final.Repository.{Order}
use ozon_final.World.{Env}
use ozon_final.Postgres.Orders.{find_order, update_rows, set_order}

pub id-find_order :
    (id : String) (os : List Order) {o : Order} → find_order id os ≡ some o → o.id ≡ id
unfolding find_order
id-find_order id [] h = cc
id-find_order id (x ∷ os) {o} h = ground (arith, id-find_order id os {o = o}, eq_iff x.id id)

abbrev pub or_else : Option Order → Option Order → Option Order
or_else none b = b
or_else (some o) b = some o

pub find_order-append :
    (id : String) (os : List Order) (o : Order)
    → find_order id (os ++ o ∷ [])
      ≡ or_else (find_order id os) (if o.id == id then some o else none)
unfolding find_order
find_order-append id [] o = refl
find_order-append id (x ∷ os) o = ground (arith, find_order-append id os o)

pub find_order-remove :
    (id j : String) (os : List Order)
    → find_order j (keep (λ o. not (o.id == id)) os) ≡ (if id == j then none else find_order j os)
unfolding find_order keep
find_order-remove id j [] = ground arith
find_order-remove id j (x ∷ os) =
    ground (arith, find_order-remove id j os, eq_iff x.id id, eq_iff x.id j, eq_iff id j)

pub find_order-update :
    (env : Env) (o : Order) (j : String) (os : List Order)
    → find_order j (update_rows env o os)
      ≡ (if o.id == j then Option.map (set_order env o) (find_order j os) else find_order j os)
unfolding find_order update_rows
find_order-update env o j [] = ground arith
find_order-update env o j (x ∷ os) =
    ground (arith, find_order-update env o j os, eq_iff x.id o.id, eq_iff x.id j, eq_iff o.id j)

-- What holds of every row holds of the row that is found.
pub find_order-All :
    (P : Order → Type 0) (id : String) (os : List Order) {o : Order}
    → All P os
    → find_order id os ≡ some o
    → P o
unfolding find_order
find_order-All P id [] h e = cc
find_order-All P id (x ∷ os) {o} h e = by_test (x.id == id) (find_order-All P id os {o = o} h.1) e
  where
    by_test :
        (b : Bool)
        → (find_order id os ≡ some o → P o)
        → (if b then some x else find_order id os) ≡ some o
        → P o
    by_test true rest e = let same : x ≡ o = ground arith in subst P same h.0
    by_test false rest e = rest e
