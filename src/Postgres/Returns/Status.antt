-- ===== src/Postgres/Returns/Status.antt =====
-- The last recorded status of an order in the table `order_history`.
use ozon_final.Base.{
  String, ◌≡◌, not, Option, none, some, List, [], ◌∷◌, ◌++◌, keep, if◌then◌else◌, ◌==◌, eq_iff,
  arith,
}
use ozon_final.Repository.{HistoryEntry}

abbrev pub or_last : Option String → Option String → Option String
or_last none s = s
or_last (some s') s = some s'

-- The entries stand in the order of their insertion.
unfoldable pub last_status : String → List HistoryEntry → Option String
last_status id [] = none
last_status id (h ∷ hs) =
    or_last (last_status id hs) (if h.order_id == id then some h.status else none)

pub last_status-append :
    (id : String) (hs : List HistoryEntry) (h : HistoryEntry)
    → last_status id (hs ++ h ∷ [])
      ≡ (if h.order_id == id then some h.status else last_status id hs)
unfolding last_status
last_status-append id [] h = ground arith
last_status-append id (x ∷ hs) h = ground (arith, last_status-append id hs h)

pub last_status-remove :
    (id j : String) (hs : List HistoryEntry)
    → last_status j (keep (λ h. not (h.order_id == id)) hs)
      ≡ (if id == j then none else last_status j hs)
unfolding last_status keep
last_status-remove id j [] = ground arith
last_status-remove id j (x ∷ hs) =
    ground
      (arith, last_status-remove id j hs, eq_iff x.order_id id, eq_iff x.order_id j, eq_iff id j)
