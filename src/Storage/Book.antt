-- ===== src/Storage/Book.antt =====
-- The abstract order book: per order id the recipient, the price and the status, and what each method of
-- the storage is to do to it.
use ozon_final.Base.{
  ℕ, ◌+◌, String, ◌≡◌, Bool, ◌&&◌, not, leb, Option, none, some, List, [], ◌∷◌, ◌++◌, keep,
  if◌then◌else◌, ◌==◌, eq_iff, arith,
}
use mathlib.Core.Option
use ozon_final.Repository
use ozon_final.World.{Env}
use ozon_final.Postgres.Orders.{find_order, order_row, update_rows}
use ozon_final.Postgres.Orders.Lookup.{find_order-append, find_order-remove, find_order-update}
use ozon_final.Storage.{to_row}
use ozon_final.Storage.Orders.{changed, return_period}
use ozon_final.Storage.Bulk.Exact.{among, fitting}
use ozon_final.Storage.Calls.{
  Method, add_order, update_order_status, delete_order, add_return, issue_orders, accept_returns,
}

pub record Entry : Type 0 where
  pub recipient : String
  pub price : ℕ
  pub status : String

abbrev pub Book : Type 0
Book = String → Option Entry

abbrev pub entry_of : Repository.Order → Entry
entry_of o = record { recipient = o.recipient_id; price = o.price; status = o.status }

-- The book that the rows stand for.
abbrev pub book_of : List Repository.Order → Book
book_of os id = Option.map entry_of (find_order id os)

-- The second book is the first one with `x` at the id.
abbrev pub Put : String → Option Entry → Book → Book → Type 0
Put id x b b' = (j : String) → b' j ≡ (if id == j then x else b j)

-- The entries of the listed ids whose rows pass the test have the status in the second book; every other
-- entry is as in the first one.
abbrev pub Advanced :
    (Repository.Order → Bool)
    → String
    → List String
    → List Repository.Order
    → List Repository.Order
    → Type 0
Advanced fits status ids os os' =
    (j : String)
    → book_of os' j ≡ (
        if among j ids && fitting fits (find_order j os)
        then Option.map (λ (e : Entry). record e { status = status }) (book_of os j)
        else book_of os j)

-- What a call that succeeds does, `now` being the time that the clock gives next.
abbrev pub Meets : ℕ → Method → List Repository.Order → List Repository.Order → Type 0
Meets now (add_order o) os os' =
    (book_of os o.id ≡ none) × Put o.id (some (entry_of (to_row o))) (book_of os) (book_of os')
Meets now (update_order_status id status) os os' =
    (e : Entry) × (book_of os id ≡ some e)
    × Put id (some (record e { status = status })) (book_of os) (book_of os')
Meets now (delete_order id) os os' = Put id none (book_of os) (book_of os')
Meets now (add_return ret) os os' =
    (e : Entry) × (book_of os ret.order_id ≡ some e)
    × (e.status ≡ "issued")
    × (e.recipient ≡ ret.user_id)
    × Put ret.order_id (some (record e { status = "returned" })) (book_of os) (book_of os')
Meets now (issue_orders user ids) os os' =
    Advanced (λ o. o.recipient_id == user && o.status == "received" && leb now o.storage_until)
      "issued" ids os os'
Meets now (accept_returns user ids) os os' =
    Advanced
      (λ o.
        o.recipient_id == user && o.status == "issued" && leb now (o.updated_at + return_period))
      "returned" ids os os'

-- What the statements do to the book.
pub append-Put :
    (env : Env) (os : List Repository.Order) (o : Repository.Order)
    → find_order o.id os ≡ none
    → Put o.id (some (entry_of o)) (book_of os) (book_of (os ++ order_row env o ∷ []))
append-Put env os o fresh j =
    ground (arith, find_order-append j os (order_row env o), eq_iff o.id j)

pub remove-Put :
    (os : List Repository.Order) (id : String)
    → Put id none (book_of os) (book_of (keep (λ o. not (o.id == id)) os))
remove-Put os id j = ground (arith, find_order-remove id j os)

pub update-Put :
    (env : Env) (os : List Repository.Order) (id status : String) (o : Repository.Order) (at : ℕ)
    → find_order id os ≡ some o
    → o.id ≡ id
    → Put id
        (some (record (entry_of o) { status = status }))
        (book_of os)
        (book_of (update_rows env (changed o status at) os))
update-Put env os id status o at found this j = ground (
  arith,
  find_order-update env (changed o status at) j os,
  eq_iff o.id j,
  eq_iff id j,
  this,
  found,
)

pub same-Put :
    (os : List Repository.Order) (id : String) {o : Repository.Order}
    → find_order id os ≡ some o
    → Put id (some (entry_of o)) (book_of os) (book_of os)
same-Put os id found j = ground (arith, eq_iff id j, found)
