-- ===== src/Base/Sorting/Order.antt =====
-- Sorted lists, and `sort_by`.
use Prim.Native.Nat.{ℕ, zero, suc}
use mathlib.Core.Path.{◌≡◌, refl}
use mathlib.Core.Bool.{Bool, true, false}
use mathlib.Core.List.{List, [], ◌∷◌}
use ozon_final.Base.Tests.{if◌then◌else◌}
use ozon_final.Base.Sorting.{insert_by, sort_by, take}

module _ {ℓ κ} {A : Type ℓ} (R : A → A → Type κ) where
  abbrev pub IsBefore : A → List A → Type κ
  IsBefore x [] = Unit
  IsBefore x (y ∷ ys) = R x y

  -- Each item is related to the next.
  abbrev pub IsSorted : List A → Type κ
  IsSorted [] = Unit
  IsSorted (x ∷ xs) = IsBefore x xs × IsSorted xs

  module _ (before : A → A → Bool) (yes : (x y : A) → before x y ≡ true → R x y)
      (no : (x y : A) → before x y ≡ false → R y x) where
    insert_by-IsBefore :
        (y x : A) (xs : List A) → R y x → IsBefore y xs → IsBefore y (insert_by before x xs)
    unfolding insert_by
    insert_by-IsBefore y x [] h k = h
    insert_by-IsBefore y x (z ∷ zs) h k = by_test (before x z)
      where
        by_test : (b : Bool) → IsBefore y (if b then x ∷ z ∷ zs else z ∷ insert_by before x zs)
        by_test true = h
        by_test false = k

    insert_by-IsSorted : (x : A) (xs : List A) → IsSorted xs → IsSorted (insert_by before x xs)
    unfolding insert_by
    insert_by-IsSorted x [] h = (tt, tt)
    insert_by-IsSorted x (y ∷ ys) h =
        by_test (before x y) refl (insert_by-IsSorted x ys h.1)
          (λ r. insert_by-IsBefore y x ys r h.0)
      where
        by_test :
            (b : Bool)
            → before x y ≡ b
            → IsSorted (insert_by before x ys)
            → (R y x → IsBefore y (insert_by before x ys))
            → IsSorted (if b then x ∷ y ∷ ys else y ∷ insert_by before x ys)
        by_test true e rest head = (yes x y e, h)
        by_test false e rest head = (head (no x y e), rest)

    pub sort_by-IsSorted : (xs : List A) → IsSorted (sort_by before xs)
    unfolding sort_by
    sort_by-IsSorted [] = tt
    sort_by-IsSorted (x ∷ xs) = insert_by-IsSorted x (sort_by before xs) (sort_by-IsSorted xs)

  pub take-IsSorted : (n : ℕ) (xs : List A) → IsSorted xs → IsSorted (take n xs)
  take-IsSorted zero xs h = tt
  take-IsSorted (suc n) [] h = tt
  take-IsSorted (suc zero) (x ∷ xs) h = (tt, tt)
  take-IsSorted (suc (suc n)) (x ∷ []) h = (tt, tt)
  take-IsSorted (suc (suc n)) (x ∷ y ∷ ys) h = (h.0, take-IsSorted (suc n) (y ∷ ys) h.1)
