-- ===== src/Packager/Kinds.antt =====
-- `GetPackager` against the enumeration of wrapper types in the schema, the limits and the surcharges.
use ozon_final.Base.{
  ℕ, ◌+◌, ◌^◌, ◌<◌, String, ◌≡◌, refl, sym, Bool, true, false, not, ◌&&◌, if◌then◌else◌, ◌==◌, ◌↔◌,
  arith,
}
use mathlib.Core.Path.{subst}
use ozon_final.Errors.{Error, Result, ok, err}
use ozon_final.World.{Env}
use ozon_final.Packager.{
  Packager, bag, box, membrane, decorated, get_packager, get_type, adjust_price, validate_weight,
  float_ge, float_10, float_30,
}
use ozon_final.Postgres.Orders.{is_wrapper_type}

abbrev OnOk : (Packager → Type 0) → Result Packager → Type 0
OnOk P (ok p) = P p
OnOk P (err e) = Unit

-- What holds of a bag, a box and a membrane, decorated or not, holds of the result.
module _ (P : Packager → Type 0) (e : Error) (d : Bool) where
  by_tests :
      (a b c : Bool)
      → (a ≡ true → P (decorated (d && not c) bag))
      → (a ≡ false → b ≡ true → P (decorated (d && not c) box))
      → (a ≡ false → b ≡ false → c ≡ true → P (decorated (d && not c) membrane))
      → OnOk P
          (elim (if a then ok bag else if b then ok box else if c then ok membrane else err e)
            as (λ _. Result Packager) [ ok p ↦ ok (decorated (d && not c) p) | err e ↦ err e ])
  by_tests true b c x y z = x refl
  by_tests false true c x y z = y refl refl
  by_tests false false true x y z = z refl refl refl
  by_tests false false false x y z = tt

abbrev extra : String → Bool → Bool
extra wrapper additional = additional && not (wrapper == "Membrane")

by_wrapper :
    (P : Packager → Type 0) (wrapper : String) (additional : Bool) {p : Packager}
    → get_packager wrapper additional ≡ ok p
    → ((wrapper == "Bag") ≡ true → P (decorated (extra wrapper additional) bag))
    → ((wrapper == "Bag") ≡ false
        → (wrapper == "Box") ≡ true
        → P (decorated (extra wrapper additional) box))
    → ((wrapper == "Bag") ≡ false
        → (wrapper == "Box") ≡ false
        → (wrapper == "Membrane") ≡ true
        → P (decorated (extra wrapper additional) membrane))
    → P p
unfolding get_packager
by_wrapper P wrapper additional made x y z =
    subst (OnOk P) made
      (by_tests P _ additional (wrapper == "Bag") (wrapper == "Box") (wrapper == "Membrane") x y z)

-- The surcharge of a wrapper, with the extra membrane that only a bag and a box can get.
abbrev pub surcharge : String → Bool → ℕ
surcharge wrapper additional =
    (if wrapper == "Bag" then 5 else if wrapper == "Box" then 20 else 1)
    + (if additional && not (wrapper == "Membrane") then 1 else 0)

-- Is a weight, as a bit pattern, under the limit of its wrapper?
abbrev pub is_light : String → ℕ → Bool
is_light wrapper weight =
    if wrapper == "Bag"
    then not (float_ge weight float_10)
    else if wrapper == "Box"
    then not (float_ge weight float_30)
    else true

bag_type : (b : Bool) → is_wrapper_type (get_type (decorated b bag)) ≡ true
unfolding get_type
bag_type true = refl
bag_type false = refl

box_type : (b : Bool) → is_wrapper_type (get_type (decorated b box)) ≡ true
unfolding get_type
box_type true = refl
box_type false = refl

module _ (wrapper : String) (additional : Bool) {p : Packager}
    (made : get_packager wrapper additional ≡ ok p) where
  -- A packager that `GetPackager` makes names itself by a value of the database's type `wrapper_type`,
  -- so the column `wrapper` takes it.
  pub get_type-get_packager : is_wrapper_type (get_type p) ≡ true
  unfolding get_type
  get_type-get_packager =
      by_wrapper (λ p. is_wrapper_type (get_type p) ≡ true) wrapper additional made
        (λ h. bag_type (extra wrapper additional)) (λ h k. box_type (extra wrapper additional))
        (λ h k l.
          let none_extra : extra wrapper additional ≡ false = ground arith in
          subst (λ b. is_wrapper_type (get_type (decorated b membrane)) ≡ true) (sym none_extra)
            refl)

  -- A packager that `GetPackager` makes adds the surcharge of its wrapper to a price, as long as the
  -- sum fits a 64-bit integer.
  pub adjust_price-get_packager :
      (price : ℕ)
      → price + surcharge wrapper additional < 2 ^ 63
      → adjust_price p price ≡ price + surcharge wrapper additional
  unfolding adjust_price
  adjust_price-get_packager price small =
      by_wrapper (λ p. adjust_price p price ≡ price + surcharge wrapper additional) wrapper
        additional made (λ h. ground arith) (λ h k. ground arith) (λ h k l. ground arith)

  -- A packager that `GetPackager` makes accepts a weight exactly if it is under the limit of its
  -- wrapper: 10 for a bag, 30 for a box, no limit for a membrane.
  pub validate_weight-get_packager :
      (env : Env) (weight : ℕ)
      → (validate_weight env p weight ≡ ok tt) ↔ (is_light wrapper weight ≡ true)
  unfolding validate_weight
  validate_weight-get_packager env weight =
      by_wrapper (λ p. (validate_weight env p weight ≡ ok tt) ↔ (is_light wrapper weight ≡ true))
        wrapper additional made (λ h. ground arith) (λ h k. ground arith) (λ h k l. ground arith)

  -- A packager that `GetPackager` makes names itself by a value of the database's type `wrapper_type`,
  -- accepts a weight exactly if it is under the limit of its wrapper (10 for a bag, 30 for a box, no limit
  -- for a membrane), and adds the surcharge of its wrapper to a price whose sum fits a 64-bit integer.
  pub get_packager_lem :
      (env : Env) (weight price : ℕ)
      → price + surcharge wrapper additional < 2 ^ 63
      → (is_wrapper_type (get_type p) ≡ true)
        × ((validate_weight env p weight ≡ ok tt) ↔ (is_light wrapper weight ≡ true))
        × (adjust_price p price ≡ price + surcharge wrapper additional)
  get_packager_lem env weight price small = (
    get_type-get_packager,
    validate_weight-get_packager env weight,
    adjust_price-get_packager price small,
  )
