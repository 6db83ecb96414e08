-- ===== src/Repository.antt =====
-- The rows of the database as Go structs: internal/repository/structs.go and
-- internal/repository/outbox_task.go. A time is its nanoseconds since Go's zero time, an `int` its
-- 64-bit pattern, a `float32` its 32-bit pattern, a UUID a number.
use ozon_final.Base.{ℕ, String, Option, none}

pub record Order : Type 0 where
  pub id : String
  pub recipient_id : String
  pub storage_until : ℕ
  pub status : String
  pub price : ℕ
  pub weight : ℕ
  pub wrapper : String
  pub created_at : ℕ
  pub updated_at : ℕ

pub record ReturnEntry : Type 0 where
  pub id : ℕ
  pub order_id : String
  pub user_id : String
  pub returned_at : ℕ

pub record HistoryEntry : Type 0 where
  pub id : ℕ
  pub order_id : String
  pub status : String
  pub changed_at : ℕ

pub data TaskStatus : Type 0 where
  created processing failed done : TaskStatus

-- The JSON of an audit record is kept as the struct that it encodes.
pub record AuditLogPayload : Type 0 where
  pub timestamp : ℕ
  pub user_id : String
  pub order_id : String
  pub method : String
  pub path : String
  pub handler : String
  pub status_code : ℕ
  pub request : String
  pub response : String
  pub old_status : String
  pub new_status : String
  pub action : String
  pub entity_id : String
  pub entity_type : String

-- `uuid.Nil` is 0.
pub record OutboxTask : Type 0 where
  pub id : ℕ
  pub status : TaskStatus
  pub payload : AuditLogPayload
  pub topic : String
  pub attempts : ℕ
  pub last_error : Option String
  pub created_at : ℕ
  pub updated_at : ℕ
  pub completed_at : Option ℕ

-- A row of `users`, as the queries of internal/repository/postgresql/user.go read it.
pub record User : Type 0 where
  pub username : String
  pub password : String

-- The struct literals that leave the other fields at their zero values.
abbrev pub new_return : String → String → ℕ → ReturnEntry
new_return order user at = record { id = 0; order_id = order; user_id = user; returned_at = at }

abbrev pub new_history : String → String → ℕ → HistoryEntry
new_history order status at = record { id = 0; order_id = order; status = status; changed_at = at }

abbrev pub new_task : String → AuditLogPayload → OutboxTask
new_task topic payload = record {
  id = 0;
  status = created;
  payload = payload;
  topic = topic;
  attempts = 0;
  last_error = none;
  created_at = 0;
  updated_at = 0;
  completed_at = none;
}
