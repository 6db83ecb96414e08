-- ===== src/Base/Dict.antt =====
-- Go maps with text keys, as association lists. Each law has the form of a lookup under `if`.
use Prim.Native.String.{String}
use mathlib.Core.Path.{◌≡◌}
use mathlib.Core.Option.{Option, none, some}
use mathlib.Core.List.{List, [], ◌∷◌}
use native.Mathlib.Omega.{arith}
use text.Mathlib.Text.{◌==◌}
use text.Mathlib.TextEquality.{eq_iff}
use mathlib.Core.Logic.{◌≢◌, inl, inr}
use ozon_final.Base.Tests.{Bool-cases, if◌then◌else◌}
use ozon_final.Base.Lists.{All}

abbrev pub Dict {ℓ} : Type ℓ → Type ℓ
Dict V = List (String × V)

module _ {ℓ} {V : Type ℓ} where
  -- `v, found := d[k]`
  unfoldable pub lookup : String → Dict V → Option V
  lookup k [] = none
  lookup k ((j, v) ∷ d) = if j == k then some v else lookup k d

  -- `delete(d, k)`
  unfoldable pub remove : String → Dict V → Dict V
  remove k [] = []
  remove k ((j, v) ∷ d) = let rest = remove k d in if j == k then rest else (j, v) ∷ rest

  -- `d[k] = v`; Go visits a map in no fixed order
  unfoldable pub insert : String → V → Dict V → Dict V
  unfolding remove
  insert k v d = (k, v) ∷ remove k d

  pub lookup-remove :
      (k j : String) (d : Dict V) → lookup j (remove k d) ≡ (if k == j then none else lookup j d)
  unfolding lookup remove
  lookup-remove k j [] = ground arith
  lookup-remove k j ((i, v) ∷ d) =
      ground (arith, lookup-remove k j d, eq_iff i k, eq_iff i j, eq_iff k j)

  pub lookup-insert :
      (k j : String) (v : V) (d : Dict V)
      → lookup j (insert k v d) ≡ (if k == j then some v else lookup j d)
  unfolding insert lookup
  lookup-insert k j v d = ground (arith, lookup-remove k j d)

  module _ {κ} (P : String × V → Type κ) where
    -- What holds of every entry holds of those that stay, and their keys differ from the removed one.
    pub All-remove : (k : String) (d : Dict V) → All P d → All (λ e. P e × (e.0 ≢ k)) (remove k d)
    unfolding remove
    All-remove k [] h = tt
    All-remove k ((j, v) ∷ d) h = elim (Bool-cases (j == k)) [
      | inl same ↦ rw same (All-remove k d h.1)
      | inr other ↦ rw other ((h.0, λ e. cc (other, (eq_iff j k).1 e)), All-remove k d h.1)
    ]

pub ruleset dict_laws = (lookup-insert, lookup-remove)
