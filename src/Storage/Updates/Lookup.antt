-- ===== src/Storage/Updates/Lookup.antt =====
-- What the cache says of an id after some updates.
use ozon_final.Base.{
  String, ◌≡◌, refl, ◌⊎◌, inl, inr, Bool, true, false, Option, none, some, List, [], ◌∷◌,
  if◌then◌else◌, ◌==◌, eq_iff, arith,
}
use ozon_final.Base.Dict.{Dict, lookup, lookup-insert, lookup-remove}
use ozon_final.Repository
use ozon_final.Cache
use ozon_final.Storage.Updates.{Update, put, drop, update, apply}

-- What one update leaves the cache to say of an id: its own answer, or what the cache said before.
abbrev key : Update → String
key (put o) = o.id
key (drop id) = id

abbrev answer : Update → Option Repository.Order
answer (put o) = if Cache.is_active_status o.status then some o else none
answer (drop id) = none

lookup-update :
    (u : Update) (j : String) (c : Dict Repository.Order)
    → lookup j (update u c) ≡ (if key u == j then answer u else lookup j c)
unfolding Cache.set Cache.delete
lookup-update (put o) j c = ground (arith, lookup-insert o.id j o c, lookup-remove o.id j c)
lookup-update (drop id) j c = lookup-remove id j c

-- What an order that is put leaves there.
pub put-or_before :
    (o : Repository.Order) (c : Dict Repository.Order) (j : String) (x : Repository.Order)
    → lookup j (update (put o) c) ≡ some x
    → (lookup j c ≡ some x) ⊎ ((o.id ≡ j) × (o ≡ x))
put-or_before o c j x e = ground (arith, lookup-update (put o) j c, eq_iff o.id j)

-- A list of updates decides what the cache says of an id, or has no say in it.
pub lookup-apply :
    (us : List Update) (j : String)
    → ((c c' : Dict Repository.Order) → lookup j (apply us c) ≡ lookup j (apply us c'))
      ⊎ ((c : Dict Repository.Order) → lookup j (apply us c) ≡ lookup j c)
unfolding apply
lookup-apply [] j = inr (λ c. refl)
lookup-apply (u ∷ us) j = by_rest (lookup-apply us j) (key u == j) refl
  where
    by_rest :
        ((c c' : Dict Repository.Order) → lookup j (apply us c) ≡ lookup j (apply us c'))
          ⊎ ((c : Dict Repository.Order) → lookup j (apply us c) ≡ lookup j c)
        → (b : Bool) → (key u == j) ≡ b
        → ((c c' : Dict Repository.Order)
            → lookup j (apply us (update u c)) ≡ lookup j (apply us (update u c')))
          ⊎ ((c : Dict Repository.Order) → lookup j (apply us (update u c)) ≡ lookup j c)
    by_rest (inl k) b e = inl (λ c c'. k (update u c) (update u c'))
    by_rest (inr k) true e = inl (λ c c'.
        ground (arith, k (update u c), k (update u c'), lookup-update u j c, lookup-update u j c'))
    by_rest (inr k) false e = inr (λ c. ground (arith, k (update u c), lookup-update u j c))
