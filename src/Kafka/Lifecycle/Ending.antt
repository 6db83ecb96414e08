-- ===== src/Kafka/Lifecycle/Ending.antt =====
-- How the program and its publisher end.
use ozon_final.Base.{ℕ, ◌≡◌, ◌≢◌, refl, Bool, true, false, Option, none, some, List, [], ◌∷◌, arith}
use ozon_final.Kafka.Lifecycle.{
  RunAt, unstarted, polling, stopping, returned, closing, finished, Lifecycle, new, Event, start,
  step, continue_from, steps,
}

abbrev at_work : RunAt → ℕ
at_work unstarted = 0
at_work polling = 1
at_work stopping = 1
at_work returned = 0

abbrev has_returned : RunAt → ℕ
has_returned returned = 1
has_returned _ = 0

abbrev is_ending : RunAt → Bool
is_ending stopping = true
is_ending returned = true
is_ending _ = false

-- `Run` itself is counted by the wait group while it waits for the wait group in `Shutdown`.
record IsValid (s : Lifecycle) : Type 0 where
  counted : s.running ≡ at_work s.run
  stopped : s.stopped ≡ is_ending s.run
  signalled : s.signalled ≡ s.stopped
  cancelled : s.stopped ≡ true → s.cancelled ≡ true
  time_outs : s.time_outs ≡ has_returned s.run
  closes : s.producer_closes ≡ has_returned s.run
  never_closing : s.main ≢ closing
  joined : s.main ≡ finished → s.run ≡ returned

new-IsValid : IsValid new
new-IsValid = record {
  counted = refl;
  stopped = refl;
  signalled = refl;
  cancelled = λ h. cc;
  time_outs = refl;
  closes = refl;
  never_closing = λ h. cc;
  joined = λ h. cc;
}

step-IsValid :
    (e : Event) (s : Lifecycle) {t : Lifecycle} → IsValid s → step e s ≡ some t → IsValid t
unfolding step
step-IsValid start s h e = ground arith
step-IsValid _ s h e = ground arith

steps-IsValid :
    (es : List Event) (s : Lifecycle) {t : Lifecycle} → IsValid s → steps es s ≡ some t → IsValid t
unfolding steps
steps-IsValid [] s h e = ground arith
steps-IsValid (x ∷ es) s {t} h e =
    by_step (step x s) (λ u q. step-IsValid x s h q) (λ u k q. steps-IsValid es u k q) e
  where
    by_step :
        (r : Option Lifecycle)
        → ((u : Lifecycle) → r ≡ some u → IsValid u)
        → ((u : Lifecycle) → IsValid u → steps es u ≡ some t → IsValid t)
        → continue_from (steps es) r ≡ some t
        → IsValid t
    by_step none k rest q = cc
    by_step (some u) k rest q = rest u (k u refl) q

-- However `main` comes to its end, its context was done before, `Run` has waited in `Shutdown` for the
-- whole time-out, exactly once, and the producer has been closed exactly once.
pub finished-time_outs :
    (es : List Event) {s : Lifecycle}
    → steps es new ≡ some s
    → s.main ≡ finished
    → (s.cancelled ≡ true) × (s.time_outs ≡ 1) × (s.producer_closes ≡ 1)
finished-time_outs es {s} e f =
    let h : IsValid s = steps-IsValid es new new-IsValid e in
    let r : s.run ≡ returned = h.joined f in ground (arith, h)
