-- ===== src/Rest/Lifecycle.antt =====
-- The start and the end of the HTTP server: `Run`, `handleShutdown` and `Shutdown` of
-- internal/server/server.go, and the goroutine of cmd/main.go that calls `Shutdown` when the context of
-- the group is done. net/http is a part of the steps: `ListenAndServe` returns `ErrServerClosed` once
-- `Shutdown` has been called, and `Shutdown` returns when no request is left or its context is done.
pub mod Ending
use ozon_final.Base.{
  ℕ, ◌+◌, ◌-◌, Bool, true, false, not, ◌&&◌, ◌||◌, Option, none, some, List, [], ◌∷◌, eqb, ltb,
  if◌then◌else◌,
}

-- Where `Run` stands: not called; in `setupRoutes`; with `s.server` set, before it listens; in `ListenAndServe`; returned
-- with an error; returned with nil.
pub data RunAt : Type 0 where
  uncalled preparing prepared listening failed closed : RunAt

-- A goroutine that waits and then calls `Shutdown`.
pub data Waiter : Type 0 where
  absent waiting shutting ended : Waiter

-- `in_shutdown` tells that `Shutdown` of net/http has been called, `by_signal` is `handleShutdown`,
-- `by_group` the goroutine of `main`, `cancelled` the context of the group. A call of `Shutdown` on a
-- nil `s.server` panics, and the process ends.
pub record Lifecycle : Type 0 where
  pub run : RunAt
  pub in_shutdown : Bool
  pub requests : ℕ
  pub by_signal : Waiter
  pub by_group : Waiter
  pub cancelled : Bool
  pub crashed : Bool

-- `main` starts the goroutine that waits for the context, and then calls `Run`.
abbrev pub new : Lifecycle
new = record {
  run = uncalled;
  in_shutdown = false;
  requests = 0;
  by_signal = absent;
  by_group = waiting;
  cancelled = false;
  crashed = false;
}

pub data Event : Type 0 where
  -- `Run` is called; it sets `s.server` and starts `handleShutdown`; it listens, or cannot; it fails later;
  -- it finds that the server is shut down
  enter prepare listen refuse fail find_closed : Event
  -- a request begins and ends
  accept respond : Event
  -- a signal arrives; the context of the group ends for another reason; `main`'s goroutine finds it done
  signal cancel find_done : Event
  -- the two calls of `Shutdown` return, with no request left or at the end of their time
  signal_drained signal_timed_out group_drained group_timed_out : Event

abbrev pub has_server : RunAt → Bool
has_server uncalled = false
has_server preparing = false
has_server _ = true

abbrev pub is_uncalled : RunAt → Bool
is_uncalled uncalled = true
is_uncalled _ = false

abbrev pub is_preparing : RunAt → Bool
is_preparing preparing = true
is_preparing _ = false

abbrev pub is_prepared : RunAt → Bool
is_prepared prepared = true
is_prepared _ = false

abbrev pub is_listening : RunAt → Bool
is_listening listening = true
is_listening _ = false

abbrev pub is_waiting : Waiter → Bool
is_waiting waiting = true
is_waiting _ = false

abbrev pub is_shutting : Waiter → Bool
is_shutting shutting = true
is_shutting _ = false

-- `Run` returns an error, and the group cancels its context.
abbrev pub return_error : Lifecycle → Lifecycle
return_error s = record s { run = failed; cancelled = true }

abbrev pub when : Bool → Lifecycle → Option Lifecycle
when true s = some s
when false s = none

-- The state after an event in a process that runs; `none` where it cannot happen.
abbrev pub move : Event → Lifecycle → Option Lifecycle
move enter s = when (is_uncalled s.run) (record s { run = preparing })
move prepare s = when (is_preparing s.run) (record s { run = prepared; by_signal = waiting })
move listen s = when (is_prepared s.run && not s.in_shutdown) (record s { run = listening })
move refuse s = when (is_prepared s.run && not s.in_shutdown) (return_error s)
move fail s = when (is_listening s.run && not s.in_shutdown) (return_error s)
move find_closed s =
    when ((is_prepared s.run || is_listening s.run) && s.in_shutdown) (record s { run = closed })
move accept s =
    when (is_listening s.run && not s.in_shutdown) (record s { requests = s.requests + 1 })
move respond s = when (ltb 0 s.requests) (record s { requests = s.requests - 1 })
move signal s =
    when (is_waiting s.by_signal) (record s { by_signal = shutting; in_shutdown = true })
move cancel s = some (record s { cancelled = true })
move find_done s = when (is_waiting s.by_group && s.cancelled) (
    if has_server s.run
    then record s { by_group = shutting; in_shutdown = true }
    else record s { crashed = true })
move signal_drained s =
    when (is_shutting s.by_signal && eqb s.requests 0) (record s { by_signal = ended })
move signal_timed_out s = when (is_shutting s.by_signal) (record s { by_signal = ended })
move group_drained s =
    when (is_shutting s.by_group && eqb s.requests 0) (record s { by_group = ended })
move group_timed_out s = when (is_shutting s.by_group) (record s { by_group = ended })

unfoldable pub step : Event → Lifecycle → Option Lifecycle
step e s = if s.crashed then none else move e s

abbrev pub continue_from : (Lifecycle → Option Lifecycle) → Option Lifecycle → Option Lifecycle
continue_from f none = none
continue_from f (some s) = f s

unfoldable pub steps : List Event → Lifecycle → Option Lifecycle
steps [] s = some s
steps (e ∷ es) s = continue_from (steps es) (step e s)
