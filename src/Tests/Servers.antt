-- ===== src/Tests/Servers.antt =====
-- The packagers and the handlers of the two servers.
use ozon_final.Base.{◌≡◌, refl, ◌⊎◌, ◌↔◌, true, false, some, [], ◌∷◌, eq_iff, arith}
use ozon_final.Errors.{text, message, ok}
use ozon_final.World.{World}
use ozon_final.Postgres.Orders.{is_wrapper_type}
use ozon_final.Packager.{bag, with_membrane, get_packager, get_type, adjust_price, validate_weight}
use ozon_final.Packager.Kinds.{get_packager_lem}
use ozon_final.Storage.{Return}
use ozon_final.Storage.Orders.{check_return, get_order}
use ozon_final.Rest.{respond, plain, Handler, basic_auth}
use ozon_final.Rest.Orders.{is_return_refusal, handle_delete_order}
use ozon_final.Rest.Refusals.{check_return-refusal}
use ozon_final.Rest.Access.{basic_auth-any_password}
use ozon_final.Rest.Deletion.{Found, Refused, RpcRefused, deletion-Found}
use ozon_final.Rest.Bulk.{handle_issue_orders, handle_accept_returns}
use ozon_final.Storage.Bulk.{issue_orders, accept_returns}
use ozon_final.Rest.Results.{Tells, bulk-Tells}
use ozon_final.Grpc.Orders.{rpc_delete_order}
use ozon_final.Tests.{calm, two, received, issued}

get_packager_lem_example :
    (is_wrapper_type (get_type (with_membrane bag)) ≡ true)
    × ((validate_weight calm (with_membrane bag) 0x41200000 ≡ ok tt) ↔ (false ≡ true))
    × (adjust_price (with_membrane bag) 100 ≡ 106)
unfolding get_packager
get_packager_lem_example =
    get_packager_lem "Bag" true {p = with_membrane bag} refl calm 0x41200000 100 (omega arith)

abbrev foreign : Return
foreign = record { order_id = "b"; user_id = "v"; returned_at = 100 }

check_return-refusal_example : is_return_refusal "order b does not belong to user v" ≡ true
unfolding check_return message
check_return-refusal_example =
    check_return-refusal foreign issued calm two {e = text "order b does not belong to user v"} refl

abbrev greeting : Handler
greeting = respond 200 (plain "hello")

basic_auth-any_password_example :
    basic_auth calm (some ("admin", "secret")) greeting two
    ≡ basic_auth calm (some ("admin", "guess")) greeting two
basic_auth-any_password_example = basic_auth-any_password calm "admin" greeting two "secret" "guess"

-- The same order after its storage period.
abbrev late : World
late = record two { cache = ("a", record received { storage_until = 50 }) ∷ [] }

deletion-Found_example :
    Found calm (get_order calm "a" late)
    ⊎ (Refused late (handle_delete_order calm "a" late)
        × RpcRefused late (rpc_delete_order calm "a" late))
deletion-Found_example = deletion-Found calm "a" late

-- An order that is named twice is issued once and reported as failed.
bulk-Tells_example :
    Tells "Error processing bulk issue: " "Issued successfully"
      (issue_orders calm "u" ("a" ∷ "a" ∷ []) two).0
      (handle_issue_orders calm (some (record { user_id = "u"; order_ids = "a" ∷ "a" ∷ [] })) two).0
    × Tells "Error processing bulk return acceptance: " "Return accepted"
        (accept_returns calm "u" ("a" ∷ "a" ∷ []) two).0
        (handle_accept_returns calm
          (some (record { user_id = "u"; order_ids = "a" ∷ "a" ∷ [] }))
          two).0
bulk-Tells_example = bulk-Tells calm "u" "a" ("a" ∷ []) two (λ e. ground (arith, eq_iff "u" "", e))
