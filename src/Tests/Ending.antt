-- ===== src/Tests/Ending.antt =====
-- The HTTP server at its start and its end.
use ozon_final.Base.{◌≡◌, refl, true, some, [], ◌∷◌}
use ozon_final.Rest.Lifecycle.{
  preparing, listening, closed, waiting, shutting, Lifecycle, new, enter, cancel, find_done,
  find_closed, steps, step,
}

-- A server that has a request when the group ends.
abbrev at_work : Lifecycle
at_work = record new { run = listening; requests = 1; by_signal = waiting; cancelled = true }

-- The group ends before `Run` has set `s.server`.
early_end :
    steps (cancel ∷ find_done ∷ []) new ≡ some (record new { cancelled = true; crashed = true })
unfolding steps step
early_end = refl

-- It ends while `Run` is in `setupRoutes`.
late_end :
    steps (enter ∷ cancel ∷ find_done ∷ []) new
    ≡ some (record new { run = preparing; cancelled = true; crashed = true })
unfolding steps step
late_end = refl

-- `Run` returns while a request is still served.
early_return :
    steps (find_done ∷ find_closed ∷ []) at_work
    ≡ some (record at_work { run = closed; in_shutdown = true; by_group = shutting })
unfolding steps step
early_return = refl
