-- ===== src/Consumer/Printing.antt =====
-- What the consumer prints before it ends.
use ozon_final.Base.{
  ℕ, zero, suc, ◌+◌, ◌≤◌, ◌≡◌, refl, sym, ap, ◌∙◌, ◌⊎◌, inl, inr, Bool, true, false, List, [], ◌∷◌,
  ◌++◌, if◌then◌else◌, arith,
}
use mathlib.Core.Path.{subst}
use mathlib.Core.List.{append_assoc, append-nil}
use ozon_final.Errors.{Error, Result, ok, err}
use ozon_final.Consumer.{
  Fetched, Broker, Consumer, new, close, Round, goes_on, returns, on_read, round, consume,
}

module _ (b : Broker) where
  -- The messages of so many rounds from the n-th on, and how often the reading failed in them.
  abbrev message_of : Result Fetched → List Fetched
  message_of (ok m) = m ∷ []
  message_of (err e) = []

  abbrev pub messages : ℕ → ℕ → List Fetched
  messages zero n = []
  messages (suc k) n = message_of (b.read n) ++ messages k (suc n)

  -- The context is done at the `select` of the round or after a failed reading in it.
  abbrev pub Ends : ℕ → Type 0
  Ends n = (b.done n ≡ true) ⊎ (((e : Error) × (b.read n ≡ err e)) × (b.done_after n ≡ true))

  -- The rounds from the n-th on have ended the program: after the messages of the rounds before the last.
  record Ended (k n : ℕ) (c : Consumer) (r : Round) : Type 0 where
    last : ℕ
    in_time : last ≤ k
    ends : Ends (n + last)
    state : Consumer
    result : r ≡ returns state
    printed : state.printed ≡ c.printed ++ messages last n
    closes : state.closes ≡ c.closes + 1

  -- What one round does.
  data Rounded (n : ℕ) (c : Consumer) : Round → Type 0 where
    went :
        {c' : Consumer}
        → b.done n ≡ false
        → c'.printed ≡ c.printed ++ message_of (b.read n)
        → c'.closes ≡ c.closes
        → Rounded n c (goes_on c')
    ended :
        {c' : Consumer}
        → Ends n
        → c'.printed ≡ c.printed
        → c'.closes ≡ c.closes + 1
        → Rounded n c (returns c')

  round-Rounded : (n : ℕ) (c : Consumer) → Rounded n c (round b n c)
  unfolding round
  round-Rounded n c = by_select (b.done n) refl (b.read n) refl (b.done_after n) refl
    where
      by_select :
          (x : Bool)
          → b.done n ≡ x
          → (r : Result Fetched) → b.read n ≡ r
          → (y : Bool) → b.done_after n ≡ y
          → Rounded n c (if x then returns (close c) else on_read y r c)
      by_select true e r er y ey = ended (inl e) refl refl
      by_select false e (ok m) er y ey = went e (ap (λ r. c.printed ++ message_of r) (sym er)) refl
      by_select false e (err f) er true ey = ended (inr ((f, er), ey)) refl refl
      by_select false e (err f) er false ey =
          went e (sym (append-nil _) ∙ ap (λ r. c.printed ++ message_of r) (sym er)) refl

  consume-Ended :
      (fuel k n : ℕ) (c : Consumer)
      → b.done (n + k) ≡ true
      → suc k ≤ fuel
      → Ended k n c (consume b fuel n c)
  unfolding consume
  consume-Ended zero k n c e le = absurd (omega (arith, le))
  consume-Ended (suc fuel) k n c e le =
      by_round (round b n c) (round-Rounded n c) k e le
        (λ j c' e' le'. consume-Ended fuel j (suc n) c' e' le')
    where
      by_round :
          (r : Round)
          → Rounded n c r
          → (k : ℕ) → b.done (n + k) ≡ true
          → suc k ≤ suc fuel
          → ((j : ℕ) (c' : Consumer)
              → b.done (suc n + j) ≡ true
              → suc j ≤ fuel
              → Ended j (suc n) c' (consume b fuel (suc n) c'))
          → Ended k n c
              (elim r [ goes_on c' ↦ consume b fuel (suc n) c' | returns c' ↦ returns c' ])
      by_round _ (ended {c'} ends printed closes) k e le next = record {
        last = 0;
        in_time = omega arith;
        ends = subst Ends (omega arith) ends;
        state = c';
        result = refl;
        printed = printed ∙ sym (append-nil _);
        closes = closes;
      }
      by_round _ (went {c'} not_done printed closes) zero e le next =
          let here : b.done n ≡ true = subst (λ i. b.done i ≡ true) (omega arith) e in
          absurd (ground (arith, not_done, here))
      by_round _ (went {c'} not_done printed closes) (suc k) e le next =
          let rest : Ended k (suc n) c' (consume b fuel (suc n) c') =
            next k c' (subst (λ i. b.done i ≡ true) (omega arith) e) (omega (arith, le)) in
          record {
            last = suc rest.last;
            in_time = omega (arith, rest.in_time);
            ends = subst Ends (omega arith) rest.ends;
            state = rest.state;
            result = rest.result;
            printed =
                rest.printed
                ∙ ap (λ ms. ms ++ messages rest.last (suc n)) printed
                ∙ append_assoc c.printed (message_of (b.read n)) (messages rest.last (suc n));
            closes = rest.closes ∙ ap (λ i. i + 1) closes;
          }

  -- If the context is done at the `select` of some round, then `main` returns in that round or before it,
  -- because the context is done: it has printed the messages that the broker gave in the rounds before its
  -- last one, each once and in their order, and has closed the reader once.
  pub consume-returns :
      (k : ℕ)
      → b.done k ≡ true
      → (last : ℕ) × ((last ≤ k)
          × (Ends last
              × ((pauses : ℕ) × (consume b (suc k) 0 new
                    ≡ returns
                        (record { printed = messages last 0; pauses = pauses; closes = 1 })))))
  consume-returns k e =
      let h : Ended k 0 new (consume b (suc k) 0 new) =
        consume-Ended (suc k) k 0 new (subst (λ i. b.done i ≡ true) (omega arith) e)
          (omega arith) in
      (
        h.last,
        (
          h.in_time,
          (
            subst Ends (omega arith) h.ends,
            (
              h.state.pauses,
              h.result
                  ∙ ap returns λ i. record {
                    printed = h.printed i;
                    pauses = h.state.pauses;
                    closes = h.closes i;
                  },
            ),
          ),
        ),
      )
