-- ===== src/Consumer.antt =====
-- cmd/consumer/main.go: the loop that reads messages from the broker and prints them. kafka-go and the
-- context are parameters.
pub mod Printing
use ozon_final.Base.{
  ℕ, zero, suc, ◌+◌, ◌≤◌, String, ◌≡◌, refl, sym, ap, ◌∙◌, ◌⊎◌, inl, inr, Bool, true, false, List,
  [], ◌∷◌, ◌++◌, if◌then◌else◌, arith,
}
use mathlib.Core.Path.{subst}
use mathlib.Core.List.{append_assoc, append-nil}
use ozon_final.Errors.{Error, Result, ok, err}

-- The fields of `kafka.Message` that are printed.
pub record Fetched : Type 0 where
  pub time : ℕ
  pub partition : ℕ
  pub offset : ℕ
  pub key : String
  pub value : String

-- What the loop finds in its n-th round.
pub record Broker : Type 0 where
  -- is the context done at the `select`, and after `ReadMessage`?
  pub done : ℕ → Bool
  pub done_after : ℕ → Bool
  -- the result of `ReadMessage`
  pub read : ℕ → Result Fetched

-- `pauses` counts the sleeps of five seconds, `closes` the calls of `r.Close()`.
pub record Consumer : Type 0 where
  pub printed : List Fetched
  pub pauses : ℕ
  pub closes : ℕ

abbrev pub new : Consumer
new = record { printed = []; pauses = 0; closes = 0 }

abbrev pub print : Fetched → Consumer → Consumer
print m c = record c { printed = c.printed ++ m ∷ [] }

abbrev pub pause : Consumer → Consumer
pause c = record c { pauses = c.pauses + 1 }

-- The deferred function of `main`.
abbrev pub close : Consumer → Consumer
close c = record c { closes = c.closes + 1 }

-- How a round ends: the loop goes on, or `main` returns.
pub data Round : Type 0 where
  goes_on returns : Consumer → Round

-- `ReadMessage` has returned; is the context done by then?
abbrev pub on_read : Bool → Result Fetched → Consumer → Round
on_read done_after (ok m) c = goes_on (print m c)
on_read done_after (err e) c = if done_after then returns (close c) else goes_on (pause c)

module _ (b : Broker) where
  unfoldable pub round : ℕ → Consumer → Round
  round n c = if b.done n then returns (close c) else on_read (b.done_after n) (b.read n) c

  -- At most so many rounds from the n-th on.
  unfoldable pub consume : ℕ → ℕ → Consumer → Round
  consume zero n c = goes_on c
  consume (suc fuel) n c = elim (round n c) [
    | goes_on c' ↦ consume fuel (suc n) c'
    | returns c' ↦ returns c'
  ]
