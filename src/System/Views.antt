-- ===== src/System/Views.antt =====
-- Invariants of the committed orders, their history and the cache, and what the two servers need of the
-- storage to keep one.
use ozon_final.Base.{ℕ, String, Bool, Option, none, some, List}
use ozon_final.Base.Dict.{Dict}
use ozon_final.Errors.{Result}
use ozon_final.Repository
use ozon_final.World.{Env, Tables, World, Answer, served, refused, lost, called}
use ozon_final.World.Keeps.{Keeps, Keeps-pure, Keeps-raise, Keeps-bind, Keeps-map_error, Keeps-if}
use ozon_final.Postgres
use ozon_final.Postgres.{on_pool, query}
use ozon_final.Postgres.Users.{validate_user, compared}
use ozon_final.Postgres.Orders.{get_by_user_id}
use ozon_final.Postgres.Returns.{get_paginated, get_by_order_id}
use ozon_final.Storage.{Order, Return}
use ozon_final.Storage.Orders.{add_order, get_order, update_order_status, delete_order, add_return}
use ozon_final.Storage.Calls
use ozon_final.Storage.Calls.{Method, perform}
use ozon_final.Storage.Queries.{get_user_orders, get_returns, get_order_history}

abbrev pub View : Type 1
View = List Repository.Order → List Repository.HistoryEntry → Dict Repository.Order → Type 0

abbrev pub Of : View → World → Type 0
Of J w = J w.db.orders w.db.history w.cache

-- The interface of the storage for such an invariant: every method keeps it.
pub record IsKept (env : Env) (J : View) : Type 0 where
  pub writes : (m : Method) (w : World) → Of J w → Of J (perform env m w).1
  pub reads : (id : String) (w : World) → Of J w → Of J (get_order env id w).1

module _ (env : Env) (J : View) where
  query-Keeps : {A : Type 0} (f : Tables → Result A) → Keeps (Of J) (query env on_pool f)
  unfolding query
  query-Keeps {A} f = record { at = λ w h. by_answer (env.answer w.calls) (f w.db) (called w) h }
    where
      by_answer :
          (a : Answer) (r : Result A) (w : World) → Of J w → Of J (Postgres.answered a r w).1
      by_answer served r w h = h
      by_answer (refused m) r w h = h
      by_answer (lost m) r w h = h

  -- The methods that only read.
  pub get_user_orders-Keeps :
      (user : String) (n : ℕ) (active : Bool) → Keeps (Of J) (get_user_orders env user n active)
  unfolding get_user_orders get_by_user_id
  get_user_orders-Keeps user n active =
      Keeps-bind _ _ (Keeps-map_error _ _ (query-Keeps _)) (λ rows. Keeps-pure _)

  pub get_returns-Keeps : (page limit : ℕ) → Keeps (Of J) (get_returns env page limit)
  unfolding get_returns get_paginated
  get_returns-Keeps page limit =
      Keeps-bind _ _ (Keeps-map_error _ _ (record { at = λ w h. (query-Keeps _).at w h }))
        (λ rows. Keeps-pure _)

  pub get_order_history-Keeps : (id : String) → Keeps (Of J) (get_order_history env id)
  unfolding get_order_history get_by_order_id
  get_order_history-Keeps id =
      Keeps-bind _ _ (Keeps-map_error _ _ (query-Keeps _)) (λ rows. Keeps-pure _)

  pub validate_user-Keeps :
      (name password : String) → Keeps (Of J) (validate_user env name password)
  unfolding validate_user
  validate_user-Keeps name password =
      Keeps-bind _ _ (Keeps-map_error _ _ (query-Keeps _)) compared-Keeps
    where
      compared-Keeps : (found : Option String) → Keeps (Of J) (compared env password found)
      compared-Keeps none = Keeps-raise _
      compared-Keeps (some hashed) = Keeps-if _ _ _ (Keeps-pure _) (Keeps-pure _)

module _ {env : Env} {J : View} (k : IsKept env J) where
  pub add_order-Keeps : (o : Order) → Keeps (Of J) (add_order env o)
  unfolding perform
  add_order-Keeps o = record { at = λ w h. k.writes (Calls.add_order o) w h }

  pub get_order-Keeps : (id : String) → Keeps (Of J) (get_order env id)
  get_order-Keeps id = record { at = λ w h. k.reads id w h }

  pub update_order_status-Keeps :
      (id status : String) → Keeps (Of J) (update_order_status env id status)
  unfolding perform
  update_order_status-Keeps id status = record {
    at = λ w h. k.writes (Calls.update_order_status id status) w h;
  }

  pub delete_order-Keeps : (id : String) → Keeps (Of J) (delete_order env id)
  unfolding perform
  delete_order-Keeps id = record { at = λ w h. k.writes (Calls.delete_order id) w h }

  pub add_return-Keeps : (ret : Return) → Keeps (Of J) (add_return env ret)
  unfolding perform
  add_return-Keeps ret = record { at = λ w h. k.writes (Calls.add_return ret) w h }
