-- ===== src/World.antt =====
-- The state of the running program, and what is not under the repository's control: the answers of
-- the database server, the clock, new identifiers, bcrypt. Requests are served one at a time, so
-- there is one transaction in flight at most.
pub mod Keeps
use ozon_final.Base.{ℕ, ◌+◌, String, Bool, Option, List, []}
use ozon_final.Base.Dict.{Dict}
use ozon_final.Errors.{Error, Result, ok, err}
use ozon_final.Repository.{Order, ReturnEntry, HistoryEntry, AuditLogPayload, OutboxTask, User}

-- How one call of the driver ends: the server executes it; it is refused with a driver's text and
-- has no effect; or it takes effect and the reply is lost on the way.
pub data Answer : Type 0 where
  served : Answer
  refused : String → Answer
  lost : String → Answer

-- What a `select` of the publisher finds ready: nothing but its timer or its default, the shutdown
-- channel, or the done channel of the context.
pub data Signal : Type 0 where
  quiet shutdown cancelled : Signal

-- The constraints of the schema in migrations/ that a statement can violate.
pub data Violation : Type 0 where
  duplicate_key no_parent bad_wrapper out_of_range negative_window : Violation

-- What the program calls and does not implement.
pub record Env : Type 0 where
  -- the end of the n-th call of the driver
  pub answer : ℕ → Answer
  -- the n-th reading of `time.Now()`
  pub clock : ℕ → ℕ
  -- what the n-th `select` finds
  pub signal : ℕ → Signal
  -- the n-th result of `uuid.New()`
  pub fresh_id : ℕ → ℕ
  -- what a TIMESTAMP column keeps of a time
  pub stored_time : ℕ → ℕ
  -- the order in which the n-th call reads the table of returns, which SQL leaves open
  pub scan : ℕ → List ReturnEntry → List ReturnEntry
  -- the driver's text for a violated constraint
  pub violation : Violation → String
  -- `uuid.UUID.String`
  pub show_id : ℕ → String
  -- `fmt.Sprintf("%.2f", weight)`
  pub show_weight : ℕ → String
  -- `time.Parse("2006-01-02", s)` and `strconv.Atoi`
  pub parse_date : String → Option ℕ
  pub parse_int : String → Option ℕ
  -- `bcrypt.GenerateFromPassword` and `bcrypt.CompareHashAndPassword`
  pub hash_password : String → Result String
  pub matches_hash : String → String → Bool

-- The tables of migrations/.
pub record Tables : Type 0 where
  pub orders : List Order
  pub returns : List ReturnEntry
  pub history : List HistoryEntry
  pub outbox : List OutboxTask
  pub users : List User

-- What `SendMessage` is given.
pub record Message : Type 0 where
  pub topic : String
  pub key : String
  pub value : AuditLogPayload

-- The counters of internal/metrics/metrics.go; the labelled one is the list of the labels counted.
pub record Metrics : Type 0 where
  pub orders_created : ℕ
  pub returns_accepted : ℕ
  pub orders_issued : ℕ
  pub operation_errors : List String

-- `work` is the copy that the transaction in flight reads and writes, `sent` what the message broker
-- has received, oldest first. `calls`, `readings`, `ids` and `selects` count what was taken from the `Env`.
pub record World : Type 0 where
  pub db : Tables
  pub work : Tables
  pub cache : Dict Order
  pub calls : ℕ
  pub readings : ℕ
  pub ids : ℕ
  pub selects : ℕ
  pub sent : List Message
  pub metrics : Metrics

-- A Go function on this state: what it wrote before an error stays written.
abbrev pub Action {ℓ} : Type ℓ → Type ℓ
Action A = World → Result A × World

module _ {ℓ} {A : Type ℓ} where
  abbrev pub pure : A → Action A
  pure a w = (ok a, w)

  abbrev pub raise : Error → Action A
  raise e w = (err e, w)

  abbrev pub lift : Result A → Action A
  lift r w = (r, w)

module _ {ℓ κ} {A : Type ℓ} {B : Type κ} where
  abbrev pub continue : Result A → (A → Action B) → Action B
  continue (ok a) f w = f a w
  continue (err e) f w = (err e, w)

  infixl 5 ◌>>=◌ ◌>>◌
  -- `if err != nil { return err }`
  unfoldable pub ◌>>=◌ : Action A → (A → Action B) → Action B
  ◌>>=◌ m f w = let (r, w') = m w in continue r f w'

  abbrev pub ◌>>◌ : Action A → Action B → Action B
  m >> k = m >>= λ _. k

abbrev pub mapped {ℓ} : {A : Type ℓ} → (Error → Error) → Result A → Result A
mapped f (ok a) = ok a
mapped f (err e) = err (f e)

-- `if err != nil { return f(err) }`
unfoldable pub map_error {ℓ} : {A : Type ℓ} → (Error → Error) → Action A → Action A
map_error f m w = let (r, w') = m w in (mapped f r, w')

module _ (env : Env) where
  -- `time.Now()`
  unfoldable pub now : Action ℕ
  now w = (ok (env.clock w.readings), record w { readings = w.readings + 1 })

  -- `uuid.New()`
  unfoldable pub new_id : Action ℕ
  new_id w = (ok (env.fresh_id w.ids), record w { ids = w.ids + 1 })

  -- What the next `select` finds.
  unfoldable pub next_signal : Action Signal
  next_signal w = (ok (env.signal w.selects), record w { selects = w.selects + 1 })

-- The next answer of the driver is used up.
abbrev pub called : World → World
called w = record w { calls = w.calls + 1 }

abbrev pub no_tables : Tables
no_tables = record { orders = []; returns = []; history = []; outbox = []; users = [] }
