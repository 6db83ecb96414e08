-- ===== src/Rest/Lifecycle/Ending.antt =====
-- How the HTTP server ends.
use ozon_final.Base.{◌≡◌, ◌≢◌, refl, Bool, true, false, Option, none, some, List, [], ◌∷◌, arith}
use ozon_final.Rest.Lifecycle.{
  RunAt, uncalled, preparing, prepared, listening, failed, closed, Waiter, absent, waiting,
  shutting, ended, Lifecycle, new, Event, enter, find_closed, find_done, has_server,
  group_timed_out, step, continue_from, steps,
}

-- What is so in every state.
record IsValid (s : Lifecycle) : Type 0 where
  crashed_early : s.crashed ≡ true → has_server s.run ≡ false
  waits : s.by_group ≢ absent
  group_shuts : s.by_group ≢ waiting → s.in_shutdown ≡ true
  before_run : has_server s.run ≡ false → (s.by_signal ≡ absent) × (s.in_shutdown ≡ false)

new-IsValid : IsValid new
new-IsValid = record {
  crashed_early = λ h. cc;
  waits = λ h. cc;
  group_shuts = λ h. absurd (h refl);
  before_run = λ h. (refl, refl);
}

step-IsValid :
    (e : Event) (s : Lifecycle) {t : Lifecycle} → IsValid s → step e s ≡ some t → IsValid t
unfolding step
step-IsValid enter s h e = ground arith
step-IsValid _ s h e = ground arith

steps-IsValid :
    (es : List Event) (s : Lifecycle) {t : Lifecycle} → IsValid s → steps es s ≡ some t → IsValid t
unfolding steps
steps-IsValid [] s h e = ground arith
steps-IsValid (x ∷ es) s {t} h e =
    by_step (step x s) (λ u q. step-IsValid x s h q) (λ u k q. steps-IsValid es u k q) e
  where
    by_step :
        (r : Option Lifecycle)
        → ((u : Lifecycle) → r ≡ some u → IsValid u)
        → ((u : Lifecycle) → IsValid u → steps es u ≡ some t → IsValid t)
        → continue_from (steps es) r ≡ some t
        → IsValid t
    by_step none k rest q = cc
    by_step (some u) k rest q = rest u (k u refl) q

-- The steps that are left when the context of the group is done.
abbrev close : RunAt → List Event
close uncalled = []
close preparing = []
close prepared = find_closed ∷ []
close listening = find_closed ∷ []
close failed = []
close closed = []

abbrev way_out : RunAt → Waiter → List Event
way_out run waiting = find_done ∷ group_timed_out ∷ close run
way_out run shutting = group_timed_out ∷ close run
way_out run _ = close run

abbrev has_returned : RunAt → Bool
has_returned failed = true
has_returned closed = true
has_returned _ = false

abbrev pub Finishes : Option Lifecycle → Type 0
Finishes none = ⊥
Finishes (some t) = (has_returned t.run ≡ true) × (t.by_group ≡ ended)

valid-Finishes :
    (s : Lifecycle)
    → IsValid s
    → s.cancelled ≡ true
    → has_server s.run ≡ true
    → Finishes (steps (way_out s.run s.by_group) s)
unfolding steps step
valid-Finishes s h c n = ground arith

-- Once `Run` has set `s.server`, no `Shutdown` has found it nil, and once the group has ended besides, there
-- are steps after which `Run` has returned and so has the `Shutdown` that `main` calls.
pub steps-Finishes :
    (es : List Event) {s : Lifecycle}
    → steps es new ≡ some s
    → has_server s.run ≡ true
    → s.cancelled ≡ true
    → (s.crashed ≡ false) × ((rest : List Event) × Finishes (steps rest s))
steps-Finishes es {s} e n c =
    let h : IsValid s = steps-IsValid es new new-IsValid e in
    (ground (arith, h.crashed_early, n), (way_out s.run s.by_group, valid-Finishes s h c n))
