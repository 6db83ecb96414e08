-- ===== src/Base/Sorting/Items.antt =====
-- What sorting, selecting and limiting do to the items of a list.
use Prim.Native.Nat.{ℕ, zero, suc, ◌≤◌}
use mathlib.Core.Path.{◌≡◌, refl}
use mathlib.Core.Bool.{Bool, true, false}
use mathlib.Core.List.{List, [], ◌∷◌, Perm}
use mathlib.Core.List.Perm
use native.Mathlib.Omega.{arith}
use ozon_final.Base.Tests.{if◌then◌else◌}
use ozon_final.Base.Lists.{All, keep, length}
use ozon_final.Base.Sorting.{insert_by, sort_by, take}

module _ {ℓ κ} {A : Type ℓ} (P : A → Type κ) where
  pub All-keep : (p : A → Bool) (xs : List A) → All P xs → All P (keep p xs)
  unfolding keep
  All-keep p [] h = tt
  All-keep p (x ∷ xs) h = by_test (p x) (All-keep p xs h.1)
    where
      by_test : (b : Bool) → All P (keep p xs) → All P (if b then x ∷ keep p xs else keep p xs)
      by_test true rest = (h.0, rest)
      by_test false rest = rest

  All-insert_by :
      (before : A → A → Bool) (x : A) (xs : List A) → P x → All P xs → All P (insert_by before x xs)
  unfolding insert_by
  All-insert_by before x [] k h = (k, tt)
  All-insert_by before x (y ∷ ys) k h = by_test (before x y) (All-insert_by before x ys k h.1)
    where
      by_test :
          (b : Bool)
          → All P (insert_by before x ys)
          → All P (if b then x ∷ y ∷ ys else y ∷ insert_by before x ys)
      by_test true rest = (k, h)
      by_test false rest = (h.0, rest)

  pub All-sort_by : (before : A → A → Bool) (xs : List A) → All P xs → All P (sort_by before xs)
  unfolding sort_by
  All-sort_by before [] h = tt
  All-sort_by before (x ∷ xs) h =
      All-insert_by before x (sort_by before xs) h.0 (All-sort_by before xs h.1)

  pub All-take : (n : ℕ) (xs : List A) → All P xs → All P (take n xs)
  All-take zero xs h = tt
  All-take (suc n) [] h = tt
  All-take (suc n) (x ∷ xs) h = (h.0, All-take n xs h.1)

module _ {ℓ} {A : Type ℓ} where
  -- What is kept passes the test.
  pub keep-All : (p : A → Bool) (xs : List A) → All (λ x. p x ≡ true) (keep p xs)
  unfolding keep
  keep-All p [] = tt
  keep-All p (x ∷ xs) = by_test (p x) refl (keep-All p xs)
    where
      by_test :
          (b : Bool)
          → p x ≡ b
          → All (λ x. p x ≡ true) (keep p xs)
          → All (λ x. p x ≡ true) (if b then x ∷ keep p xs else keep p xs)
      by_test true e rest = (e, rest)
      by_test false e rest = rest

  pub length-take : (n : ℕ) (xs : List A) → length (take n xs) ≤ n
  length-take zero xs = omega arith
  length-take (suc n) [] = omega arith
  length-take (suc n) (x ∷ xs) = omega (arith, length-take n xs)

  insert_by-perm :
      (before : A → A → Bool) (x : A) (xs : List A) → Perm (insert_by before x xs) (x ∷ xs)
  unfolding insert_by
  insert_by-perm before x [] = Perm.refl _
  insert_by-perm before x (y ∷ ys) = by_test (before x y) (insert_by-perm before x ys)
    where
      by_test :
          (b : Bool)
          → Perm (insert_by before x ys) (x ∷ ys)
          → Perm (if b then x ∷ y ∷ ys else y ∷ insert_by before x ys) (x ∷ y ∷ ys)
      by_test true rest = Perm.refl _
      by_test false rest = Perm.trans (Perm.cons y rest) (Perm.swap x y ys)

  -- Sorting keeps the items, and how often they stand there.
  pub sort_by-perm : (before : A → A → Bool) (xs : List A) → Perm (sort_by before xs) xs
  unfolding sort_by
  sort_by-perm before [] = Perm.refl _
  sort_by-perm before (x ∷ xs) =
      Perm.trans (insert_by-perm before x (sort_by before xs))
        (Perm.cons x (sort_by-perm before xs))
