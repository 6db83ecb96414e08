-- ===== src/Base/Text.antt =====
-- `strings.Contains`, and the laws that the error handlers rely on.
use Prim.Native.String.{String, ◌++◌}
use mathlib.Core.Path.{◌≡◌}
use mathlib.Core.Bool.{Bool, true, ◌||◌}
use native.Mathlib.Omega.{arith}
use text.Mathlib.Text.{starts_with}
use text.Mathlib.TextLemmas.{cons-append, nil-append, append_assoc}
use text.Mathlib.TextPositions.{starts_with-append}

-- `strings.Contains(s, part)`
unfoldable pub contains : String → String → Bool
contains String.[] part = starts_with String.[] part
contains (String.◌∷◌ c s) part = starts_with (String.◌∷◌ c s) part || contains s part

contains_of_starts_with : (s part : String) → starts_with s part ≡ true → contains s part ≡ true
unfolding contains
contains_of_starts_with String.[] part h = h
contains_of_starts_with (String.◌∷◌ c s) part h = ground arith

-- A text that begins with the part contains it.
pub contains-append_self : (part rest : String) → contains (part ++ rest) part ≡ true
contains-append_self part rest =
    contains_of_starts_with (part ++ rest) part (starts_with-append part rest)

-- What a text contains is also contained behind any prefix.
pub contains-append :
    (pre s part : String) → contains s part ≡ true → contains (pre ++ s) part ≡ true
unfolding contains
contains-append String.[] s part h = rw nil-append h
contains-append (String.◌∷◌ c pre) s part h =
    rw cons-append (ground (arith, contains-append pre s part h))

-- A text contains its middle.
pub contains-append_middle :
    (pre part mid rest : String) → contains ((pre ++ (part ++ mid)) ++ rest) part ≡ true
contains-append_middle pre part mid rest = rw append_assoc (
    rw append_assoc
      (contains-append pre (part ++ (mid ++ rest)) part (contains-append_self part (mid ++ rest))))
