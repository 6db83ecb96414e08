-- ===== src/Grpc.antt =====
-- internal/grpcserver/server.go: the messages of internal/proto/order_service.proto, the replies,
-- and the conversions.
pub mod Orders
pub mod Methods
pub mod Lists
pub mod Bulk
use Prim.Native.String.{◌++◌ as ◌++ₛ◌}
use ozon_final.Base.{
  ℕ, ◌+◌, ◌-◌, ◌%◌, ◌^◌, String, Bool, Option, none, some, List, [], ◌∷◌, ◌++◌, ltb, if◌then◌else◌,
}
use ozon_final.Errors.{Error, message, Result, ok, err}
use ozon_final.World.{World, Metrics, Action}
use ozon_final.Storage

pub data Code : Type 0 where
  invalid_argument already_exists not_found failed_precondition internal : Code

pub record Status : Type 0 where
  pub code : Code
  pub text : String

-- The two results of an RPC method.
pub record Reply (A : Type 0) : Type 0 where
  pub response : Option A
  pub failure : Option Status

abbrev pub Rpc : Type 0 → Type 0
Rpc A = World → Reply A × World

-- `metrics.OperationErrorsTotal.WithLabelValues(label).Inc()`
abbrev pub count_error : String → World → World
count_error label w = record w {
  metrics = record w.metrics { operation_errors = w.metrics.operation_errors ++ label ∷ [] };
}

module _ {A : Type 0} where
  abbrev pub reply : A → Rpc A
  reply a w = (record { response = some a; failure = none }, w)

  abbrev pub fail : String → Code → String → Rpc A
  fail label code text w = (
    record { response = none; failure = some (record { code = code; text = text }) },
    count_error label w,
  )

module _ {A B : Type 0} where
  abbrev pub on_result : Result A → (A → Rpc B) → (Error → Rpc B) → Rpc B
  on_result (ok a) f g w = f a w
  on_result (err e) f g w = g e w

  abbrev pub call : Action A → (A → Rpc B) → (Error → Rpc B) → Rpc B
  call m f g w = let (r, w') = m w in on_result r f g w'

-- `int32(n)` of a 64-bit pattern, and `int(n)` of a 32-bit pattern, which extends the sign
abbrev pub int32_of_int : ℕ → ℕ
int32_of_int n = n % 2 ^ 32

abbrev pub int_of_int32 : ℕ → ℕ
int_of_int32 n = if ltb n (2 ^ 31) then n else n + (2 ^ 64 - 2 ^ 32)

pub record Order : Type 0 where
  pub id : String
  pub recipient_id : String
  pub storage_until : ℕ
  pub status : String
  pub price : ℕ
  pub weight : ℕ
  pub wrapper_type : String
  pub created_at : ℕ
  pub updated_at : ℕ

pub record Return : Type 0 where
  pub order_id : String
  pub user_id : String
  pub returned_at : ℕ

pub record HistoryEntry : Type 0 where
  pub order_id : String
  pub status : String
  pub updated_at : ℕ

-- The conversions; the callers give no nil pointer.
unfoldable pub to_proto_order : Storage.Order → Order
to_proto_order o = record {
  id = o.id;
  recipient_id = o.recipient_id;
  storage_until = o.storage_until;
  status = o.status;
  price = int32_of_int o.price;
  weight = o.weight;
  wrapper_type = o.wrapper;
  created_at = o.created_at;
  updated_at = o.updated_at;
}

unfoldable pub to_proto_return : Storage.Return → Return
to_proto_return r = record {
  order_id = r.order_id;
  user_id = r.user_id;
  returned_at = r.returned_at;
}

unfoldable pub to_proto_history_entry : Storage.HistoryEntry → HistoryEntry
to_proto_history_entry h = record {
  order_id = h.order_id;
  status = h.status;
  updated_at = h.changed_at;
}
