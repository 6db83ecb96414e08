-- ===== src/Rest/Refusals.antt =====
-- The servers classify a failed return by its text: the refusals of `AddReturn`.
use Prim.Native.String.{◌++◌}
use ozon_final.Base.{◌≡◌, true, arith}
use ozon_final.Base.Text.{contains, contains-append, contains-append_middle}
use ozon_final.Errors.{Error, message, err}
use ozon_final.Repository.{Order}
use ozon_final.World.{Env, World, ◌>>=◌, now}
use ozon_final.Storage.{Return}
use ozon_final.Storage.Orders.{check_return}
use ozon_final.Rest.Orders.{is_return_refusal}

module _ (ret : Return) (o : Order) where
  foreign_text :
      is_return_refusal ("order " ++ (ret.order_id ++ (" does not belong to user " ++ ret.user_id)))
      ≡ true
  unfolding is_return_refusal
  foreign_text =
      let part : contains (" does not belong to user " ++ ret.user_id) "does not belong" ≡ true =
        contains-append_middle " " "does not belong" " to user " ret.user_id in
      let whole = contains-append "order " _ _ (contains-append ret.order_id _ _ part) in
      ground (arith, whole)

  status_text :
      is_return_refusal
        ("order " ++ (ret.order_id ++ (" not in 'issued' status (current: " ++ (o.status ++ ")"))))
      ≡ true
  unfolding is_return_refusal
  status_text =
      let part : contains (" not in 'issued' status (current: " ++ (o.status ++ ")"))
            "not in 'issued' status"
          ≡ true =
        contains-append_middle " " "not in 'issued' status" " (current: " (o.status ++ ")") in
      let whole = contains-append "order " _ _ (contains-append ret.order_id _ _ part) in
      ground (arith, whole)

  period_text : is_return_refusal ("return period expired for order " ++ ret.order_id) ≡ true
  unfolding is_return_refusal
  period_text =
      let whole : contains ("return period expired for order " ++ ret.order_id)
            "return period expired"
          ≡ true =
        contains-append_middle "" "return period expired" " for order " ret.order_id in
      ground (arith, whole)

  -- Whatever check of `AddReturn` fails on an order that was found, the text of the error is one that
  -- the servers answer as the client's error.
  pub check_return-refusal :
      (env : Env) (w : World) {e : Error}
      → (check_return env ret o w).0 ≡ err e
      → is_return_refusal (message e) ≡ true
  unfolding check_return message ◌>>=◌ now
  check_return-refusal env w h = ground (arith, foreign_text, status_text, period_text)
