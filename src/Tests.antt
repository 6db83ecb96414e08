-- ===== src/Tests.antt =====
-- A concrete environment and state, and what the children run on them: a database that executes every
-- statement, and two orders of one user.
mod Methods
mod Batches
mod Listing
mod Reading
mod Servers
mod Publishing
mod Running
mod Racing
mod Ending
mod Consuming
use ozon_final.Base.{ℕ, ◌+◌, String, Option, none, some, List, [], ◌∷◌, eqb, if◌then◌else◌, ◌==◌}
use ozon_final.Errors.{Result, ok, err}
use ozon_final.Repository
use ozon_final.Repository.{OutboxTask, new_task}
use ozon_final.World.{Env, Tables, World, Answer, served, refused, quiet, shutdown, no_tables}
use ozon_final.Storage

abbrev pub calm : Env
calm = record {
  answer = λ n. served;
  clock = λ n. 100 + n;
  signal = λ n. quiet;
  fresh_id = λ n. 1 + n;
  stored_time = λ t. t;
  scan = λ n rs. rs;
  violation = λ v. "violated";
  show_id = λ id. "task";
  show_weight = λ w. "10.00";
  parse_date = λ s. none;
  parse_int = λ s. none;
  hash_password = λ p. ok p;
  matches_hash = λ h p. h == p;
}

-- The same with a server that refuses the fifth call, and with a publisher that is told to stop.
abbrev pub refusing : Env
refusing = record calm { answer = λ n. if eqb n 4 then refused "refused" else served }

abbrev pub stopping : Env
stopping = record calm { signal = λ n. shutdown }

abbrev pub received : Repository.Order
received = record {
  id = "a";
  recipient_id = "u";
  storage_until = 1000;
  status = "received";
  price = 15;
  weight = 0;
  wrapper = "Bag";
  created_at = 1;
  updated_at = 1;
}

abbrev pub issued : Repository.Order
issued = record received { id = "b"; status = "issued" }

abbrev pub tables : Tables
tables = record no_tables {
  orders = received ∷ issued ∷ [];
  history =
      Repository.new_history "a" "received" 1
      ∷ Repository.new_history "b" "received" 1
      ∷ Repository.new_history "b" "issued" 2
      ∷ [];
  users = record { username = "admin"; password = "secret" } ∷ [];
}

abbrev pub empty : World
empty = record {
  db = no_tables;
  work = no_tables;
  cache = [];
  calls = 0;
  readings = 0;
  ids = 0;
  selects = 0;
  sent = [];
  metrics = record {
    orders_created = 0;
    returns_accepted = 0;
    orders_issued = 0;
    operation_errors = [];
  };
}

-- Two orders, the first of them also in the cache.
abbrev pub two : World
two = record empty { db = tables; cache = ("a", received) ∷ [] }

-- The order "a" as the methods take it, and a fresh one.
abbrev pub given : Storage.Order
given = Storage.of_row received

abbrev pub fresh : Storage.Order
fresh = record given { id = "c" }
