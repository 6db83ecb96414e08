-- ===== src/Rest/Deletion.antt =====
-- `DELETE` of an order gives it back to the courier, in both servers.
use Prim.Native.String.{◌++◌}
use ozon_final.Base.{ℕ, ◌≤◌, String, ◌≡◌, ◌≢◌, refl, ◌⊎◌, inl, inr, none, eq_iff, arith}
use ozon_final.Errors.{message, Result, ok, err}
use ozon_final.World.{Env, World}
use ozon_final.Storage.{Order}
use ozon_final.Storage.Orders.{get_order}
use ozon_final.Storage.Reading.{db-get_order}
use ozon_final.Rest.{Response, respond_error, on_result}
use ozon_final.Rest.Orders.{handle_delete_order, delete_found}
use ozon_final.Grpc
use ozon_final.Grpc.{Reply}
use ozon_final.Grpc.Orders.{rpc_delete_order, rpc_delete_found, not_found_or_internal}

-- The order may leave at this time.
abbrev pub Leaves : ℕ → Order → Type 0
Leaves at o = (o.status ≡ "received") × (o.storage_until ≤ at)

-- The order that `GetOrder` has found may leave at the time that the clock gives next.
abbrev pub Found : Env → Result Order × World → Type 0
Found env r = (o : Order) × ((r.0 ≡ ok o) × Leaves (env.clock r.1.readings) o)

-- The request is refused, and no table has changed.
abbrev pub Refused : World → Response × World → Type 0
Refused w a = (a.0.status ≢ 200) × (a.1.db ≡ w.db)

abbrev pub RpcRefused : World → Reply (Unit {0}) × World → Type 0
RpcRefused w a = (a.0.failure ≢ none) × (a.1.db ≡ w.db)

module _ (env : Env) (id : String) where
  delete_found-Leaves :
      (o : Order) (w : World)
      → Leaves (env.clock w.readings) o ⊎ Refused w (delete_found env id o w)
  unfolding delete_found
  delete_found-Leaves o w = ground (arith, eq_iff o.status "received")

  rpc_delete_found-Leaves :
      (o : Order) (w : World)
      → Leaves (env.clock w.readings) o ⊎ RpcRefused w (rpc_delete_found env id o w)
  unfolding rpc_delete_found
  rpc_delete_found-Leaves o w = ground (arith, eq_iff o.status "received")

  by_result :
      (r : Result Order) (w : World)
      → Found env (r, w)
        ⊎ Refused w
            (on_result r (delete_found env id) (λ e. respond_error 404 ("Error: " ++ message e)) w)
  by_result (ok o) w = by_case (delete_found-Leaves o w)
    where
      by_case :
          Leaves (env.clock w.readings) o ⊎ Refused w (delete_found env id o w)
          → Found env (ok o, w) ⊎ Refused w (delete_found env id o w)
      by_case (inl h) = inl (o, (refl, h))
      by_case (inr h) = inr h
  by_result (err e) w = inr (ground arith)

  by_rpc_result :
      (r : Result Order) (w : World)
      → Found env (r, w)
        ⊎ RpcRefused w (
            Grpc.on_result r
              (rpc_delete_found env id)
              (not_found_or_internal "delete_order" "order not found"
                "failed to get order before deletion")
              w)
  by_rpc_result (ok o) w = by_case (rpc_delete_found-Leaves o w)
    where
      by_case :
          Leaves (env.clock w.readings) o ⊎ RpcRefused w (rpc_delete_found env id o w)
          → Found env (ok o, w) ⊎ RpcRefused w (rpc_delete_found env id o w)
      by_case (inl h) = inl (o, (refl, h))
      by_case (inr h) = inr h
  by_rpc_result (err e) w = inr (ground arith)

  -- Either `GetOrder` has returned an order in the status "received" whose storage period is over at the
  -- time that the clock gives next, or both servers refuse the deletion (not 200, a status of gRPC) and no
  -- table has changed.
  pub deletion-Found :
      (w : World)
      → Found env (get_order env id w)
        ⊎ (Refused w (handle_delete_order env id w) × RpcRefused w (rpc_delete_order env id w))
  unfolding handle_delete_order rpc_delete_order
  deletion-Found w = ground (
    arith,
    by_result (get_order env id w).0 (get_order env id w).1,
    by_rpc_result (get_order env id w).0 (get_order env id w).1,
    db-get_order env id w,
  )
