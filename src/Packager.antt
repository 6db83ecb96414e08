-- ===== src/Packager.antt =====
-- internal/storage/packager.go: the kinds of packaging, their limits and surcharges.
pub mod Kinds
use ozon_final.Base.{
  ℕ, ◌+◌, ◌%◌, ◌^◌, String, Bool, true, false, not, ◌&&◌, ltb, leb, if◌then◌else◌, ◌==◌,
}
use Prim.Native.String.{◌++◌}
use ozon_final.Errors.{Error, text, Result, ok, err}
use ozon_final.World.{Env}

-- A value of the interface `Packager`: one of the three packagers, or the decorator round one.
pub data Packager : Type 0 where
  bag box membrane : Packager
  with_membrane : Packager → Packager

-- `weight >= n` on the bit pattern of a `float32`, where `n` is the pattern of a positive number:
-- the sign bit is clear and the value is neither smaller nor a NaN.
abbrev pub infinity : ℕ
infinity = 0x7f800000

abbrev pub float_ge : ℕ → ℕ → Bool
float_ge weight n = leb n weight && leb weight infinity

-- The patterns of 10 and 30.
abbrev pub float_10 : ℕ
float_10 = 0x41200000

abbrev pub float_30 : ℕ
float_30 = 0x41f00000

unfoldable pub validate_weight : Env → Packager → ℕ → Result (Unit {0})
validate_weight env bag weight =
    if float_ge weight float_10
    then err (
        text (
          "weight exceeds maximum for Bag packaging: "
          ++ (env.show_weight weight ++ " kg >= 10 kg")))
    else ok tt
validate_weight env box weight =
    if float_ge weight float_30
    then err (
        text (
          "weight exceeds maximum for Box packaging: "
          ++ (env.show_weight weight ++ " kg >= 30 kg")))
    else ok tt
validate_weight env membrane weight = ok tt
validate_weight env (with_membrane p) weight = validate_weight env p weight

-- Prices are 64-bit `int`s and wrap around.
unfoldable pub adjust_price : Packager → ℕ → ℕ
adjust_price bag price = (price + 5) % 2 ^ 64
adjust_price box price = (price + 20) % 2 ^ 64
adjust_price membrane price = (price + 1) % 2 ^ 64
adjust_price (with_membrane p) price = (adjust_price p price + 1) % 2 ^ 64

unfoldable pub get_type : Packager → String
get_type bag = "Bag"
get_type box = "Box"
get_type membrane = "Membrane"
get_type (with_membrane p) = get_type p ++ " with Membrane"

-- The `switch` of `GetPackager`
abbrev pub base_packager : String → Result Packager
base_packager wrapper =
    if wrapper == "Bag"
    then ok bag
    else if wrapper == "Box"
    then ok box
    else if wrapper == "Membrane"
    then ok membrane
    else err (text ("unknown wrapper type: " ++ wrapper))

abbrev decorated : Bool → Packager → Packager
decorated b p = if b then with_membrane p else p

unfoldable pub get_packager : String → Bool → Result Packager
get_packager wrapper additional = elim (base_packager wrapper) [
  | ok p ↦ ok (decorated (additional && not (wrapper == "Membrane")) p)
  | err e ↦ err e
]
