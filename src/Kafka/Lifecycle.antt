-- ===== src/Kafka/Lifecycle.antt =====
-- The end of the publisher: `Run` and `Shutdown` of internal/kafka/publisher.go, and the end of `main` in
-- cmd/main.go, which waits for `Run` and for the goroutines of the two servers and then calls `Shutdown`
-- itself. Each event is one step of `Run` or of `main`, or comes from outside.
pub mod Ending
use ozon_final.Base.{
  ℕ, ◌+◌, ◌-◌, Bool, true, false, ◌&&◌, Option, none, some, List, [], ◌∷◌, eqb, if◌then◌else◌,
}

-- Where `Run` stands; `stopping` is in the `select` of a `Shutdown` that it has called.
pub data RunAt : Type 0 where
  unstarted polling stopping returned : RunAt

-- Where `main` stands: in `g.Wait()`, in the `select` of its own `Shutdown`, or at its end.
pub data MainAt : Type 0 where
  waiting closing finished : MainAt

-- `running` is the counter of the wait group, `signalled` tells that `shutdownSignal` is closed,
-- `cancelled` that the context is done,
-- `servers_returned` that the goroutines of the two servers have returned, `stopped` that `stopOnce` is used up.
pub record Lifecycle : Type 0 where
  pub run : RunAt
  pub main : MainAt
  pub running : ℕ
  pub signalled : Bool
  pub cancelled : Bool
  pub servers_returned : Bool
  pub stopped : Bool
  pub time_outs : ℕ
  pub producer_closes : ℕ

-- `NewPublisher`, and the start of `main`
abbrev pub new : Lifecycle
new = record {
  run = unstarted;
  main = waiting;
  running = 0;
  signalled = false;
  cancelled = false;
  servers_returned = false;
  stopped = false;
  time_outs = 0;
  producer_closes = 0;
}

pub data Event : Type 0 where
  -- `Run` begins; a tick of its timer, and the batch; it finds the shutdown channel or the context
  start round find_signal find_done : Event
  -- the wait group of its `Shutdown` is empty; 30 seconds have passed
  drained timed_out : Event
  -- the context ends, by a signal or the error of a server
  cancel : Event
  -- the last of the two servers has returned, after an error or the end of the context
  servers_return : Event
  -- `g.Wait()` returns; the `select` of the `Shutdown` that `main` has called
  join main_drained main_timed_out : Event

-- The first part of `Shutdown`, under `stopOnce`
abbrev pub enter : Lifecycle → Lifecycle
enter s = record s { stopped = true; signalled = true }

-- Its last part
abbrev pub close_producer : Lifecycle → Lifecycle
close_producer s = record s { producer_closes = s.producer_closes + 1 }

abbrev pub count_time_out : Lifecycle → Lifecycle
count_time_out s = record s { time_outs = s.time_outs + 1 }

-- `Run` returns, and its deferred `wg.Done()` runs.
abbrev pub leave : Lifecycle → Lifecycle
leave s = record s { run = returned; running = s.running - 1 }

abbrev pub when : Bool → Lifecycle → Option Lifecycle
when true s = some s
when false s = none

abbrev pub is_polling : RunAt → Bool
is_polling polling = true
is_polling _ = false

abbrev pub is_stopping : RunAt → Bool
is_stopping stopping = true
is_stopping _ = false

abbrev pub is_unstarted : RunAt → Bool
is_unstarted unstarted = true
is_unstarted _ = false

abbrev pub is_returned : RunAt → Bool
is_returned returned = true
is_returned _ = false

abbrev pub is_waiting : MainAt → Bool
is_waiting waiting = true
is_waiting _ = false

abbrev pub is_closing : MainAt → Bool
is_closing closing = true
is_closing _ = false

-- The state after an event; `none` where it cannot happen.
unfoldable pub step : Event → Lifecycle → Option Lifecycle
step start s = when (is_unstarted s.run) (record s { run = polling; running = s.running + 1 })
step round s = when (is_polling s.run) s
step find_signal s = when (is_polling s.run && s.signalled) (leave s)
step find_done s =
    when (is_polling s.run && s.cancelled)
      (if s.stopped then leave s else record (enter s) { run = stopping })
step drained s = when (is_stopping s.run && eqb s.running 0) (leave (close_producer s))
step timed_out s = when (is_stopping s.run) (leave (close_producer (count_time_out s)))
step cancel s = some (record s { cancelled = true })
step servers_return s = when s.cancelled (record s { servers_returned = true })
step join s =
    when (is_waiting s.main && (is_returned s.run && s.servers_returned))
      (if s.stopped then record s { main = finished } else record (enter s) { main = closing })
step main_drained s =
    when (is_closing s.main && eqb s.running 0) (record (close_producer s) { main = finished })
step main_timed_out s =
    when (is_closing s.main) (record (close_producer (count_time_out s)) { main = finished })

abbrev pub continue_from : (Lifecycle → Option Lifecycle) → Option Lifecycle → Option Lifecycle
continue_from f none = none
continue_from f (some s) = f s

unfoldable pub steps : List Event → Lifecycle → Option Lifecycle
steps [] s = some s
steps (e ∷ es) s = continue_from (steps es) (step e s)
