-- ===== src/Storage.antt =====
-- internal/storage/types.go and the parts that the methods of internal/storage/filestorage.go
-- share: the audit payload and the deferred end of a transaction.
pub mod Updates
pub mod Races
pub mod Orders
pub mod Bulk
pub mod Queries
pub mod Calls
pub mod Tracked
pub mod History
pub mod Frozen
pub mod Rollback
pub mod Durable
pub mod Invariants
pub mod Rows
pub mod Committed
pub mod Coherence
pub mod Sync
pub mod Actives
pub mod Silent
pub mod Logged
pub mod Audit
pub mod Moves
pub mod Reading
pub mod Book
pub mod Serving
pub mod Contract
use ozon_final.Base.{ℕ, String, Option, none, some, List, [], ◌∷◌, ◌==◌}
use ozon_final.Base.Dict.{Dict, lookup}
use ozon_final.Errors.{Error, Result, ok, err}
use ozon_final.Repository
use ozon_final.Repository.{AuditLogPayload}
use ozon_final.World.{Env, World, Action, pure, ◌>>=◌, now}
use ozon_final.Postgres.{commit, rollback}

-- `types.go` has the fields of the repository's `Order`; `Container` is a text.
pub record Order : Type 0 where
  pub id : String
  pub recipient_id : String
  pub storage_until : ℕ
  pub status : String
  pub price : ℕ
  pub weight : ℕ
  pub wrapper : String
  pub created_at : ℕ
  pub updated_at : ℕ

pub record Return : Type 0 where
  pub order_id : String
  pub user_id : String
  pub returned_at : ℕ

pub record HistoryEntry : Type 0 where
  pub order_id : String
  pub status : String
  pub changed_at : ℕ

-- The struct literals that copy an order field by field, both ways.
abbrev pub to_row : Order → Repository.Order
to_row o = record {
  id = o.id;
  recipient_id = o.recipient_id;
  storage_until = o.storage_until;
  status = o.status;
  price = o.price;
  weight = o.weight;
  wrapper = o.wrapper;
  created_at = o.created_at;
  updated_at = o.updated_at;
}

abbrev pub of_row : Repository.Order → Order
of_row o = record {
  id = o.id;
  recipient_id = o.recipient_id;
  storage_until = o.storage_until;
  status = o.status;
  price = o.price;
  weight = o.weight;
  wrapper = o.wrapper;
  created_at = o.created_at;
  updated_at = o.updated_at;
}

-- `if v, ok := details[key].(string); ok { field = v }`, on a field that starts empty
abbrev detail : String → Option (Dict String) → String
detail key none = ""
detail key (some details) = elim (lookup key details) [ none ↦ "" | some v ↦ v ]

-- `createAuditPayload`; a nil map is `none`
unfoldable pub create_audit_payload :
    Env → String → String → String → Option (Dict String) → Action AuditLogPayload
unfolding lookup
create_audit_payload env action entity_type entity_id details = do
  at ← now env
  pure (record {
    timestamp = at;
    user_id = "";
    order_id = "";
    method = "";
    path = "";
    handler = "";
    status_code = 0;
    request = "";
    response = "";
    old_status = detail "old_status" details;
    new_status = detail "status" details;
    action = action;
    entity_id = entity_id;
    entity_type = entity_type;
  })

module _ {A : Type 0} where
  abbrev pub committed : (A → World → World) → A → Result (Unit {0}) × World → World
  committed update a (ok _, w) = update a w
  committed update a (err e, w) = w

  -- The deferred function of a method: roll back if the body failed, else commit, and update the
  -- cache if that went well. It runs after the result is set, so it cannot change the result.
  unfoldable pub close_tx : Env → (A → World → World) → Result A × World → World
  close_tx env update (ok a, w) = committed update a (commit env w)
  close_tx env update (err e, w) = let (_, w') = rollback env w in w'

  abbrev pub run_body :
      Env → (A → World → World) → Action A → Result (Unit {0}) × World → Result A × World
  run_body env update body (ok _, w) = let r = body w in (r.0, close_tx env update r)
  run_body env update body (err e, w) = (err e, w)

  -- A method of one transaction: begin, the body, and the deferred function.
  unfoldable pub in_transaction :
      Env → Action (Unit {0}) → (A → World → World) → Action A → Action A
  in_transaction env begin update body w = run_body env update body (begin w)
