-- ===== src/Errors.antt =====
-- Go errors: sentinels, new texts and wrapped errors (internal/repository/structs.go and the
-- `fmt.Errorf` calls of the program).
use ozon_final.Base.{String, Bool, true, false}
use Prim.Native.String.{◌++◌}

-- `repository.ErrObjectNotFound`, `errors.New(s)` or `fmt.Errorf` without `%w`, and
-- `fmt.Errorf("pre: %w", err)`.
pub data Error : Type 0 where
  not_found : Error
  text : String → Error
  wrap : String → Error → Error

-- `err.Error()`
unfoldable pub message : Error → String
message not_found = "not found"
message (text s) = s
message (wrap pre e) = pre ++ (": " ++ message e)

-- `errors.Is(err, repository.ErrObjectNotFound)`
abbrev pub is_not_found : Error → Bool
is_not_found not_found = true
is_not_found (text s) = false
is_not_found (wrap pre e) = is_not_found e

-- A Go result: a value, or an error other than nil.
pub data Result {ℓ} (A : Type ℓ) : Type ℓ where
  ok : A → Result A
  err : Error → Result A

-- A value with the second result nil or not, as a function that returns both.
abbrev pub IsOk {ℓ} : {A : Type ℓ} → Result A → Type 0
IsOk (ok a) = Unit
IsOk (err e) = ⊥
