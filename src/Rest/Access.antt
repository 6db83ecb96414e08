-- ===== src/Rest/Access.antt =====
-- Who passes `basicAuthMiddleware`.
use ozon_final.Base.{String, ◌≡◌, none, some, arith}
use ozon_final.World.{Env, World, called, ◌>>=◌, map_error}
use ozon_final.Postgres.{query}
use ozon_final.Postgres.Users.{validate_user, find_password}
use ozon_final.Rest.{Handler, basic_auth}

module _ (env : Env) (name : String) (next : Handler) (w : World) where
  -- A name that has no row in `users` is answered 401, whatever the password and the handler behind
  -- the middleware, and the tables and the cache stay as they are.
  pub basic_auth-stranger :
      (password : String)
      → find_password name w.db.users ≡ none
      → ((basic_auth env (some (name, password)) next w).0.status ≡ 401)
        × ((basic_auth env (some (name, password)) next w).1 ≡ called w)
  unfolding basic_auth validate_user query ◌>>=◌ map_error
  basic_auth-stranger password h = ground arith

  -- The password plays no part: two passwords for one name have the same response and leave the same
  -- state, whatever bcrypt says of either.
  pub basic_auth-any_password :
      (first second : String)
      → basic_auth env (some (name, first)) next w ≡ basic_auth env (some (name, second)) next w
  unfolding basic_auth validate_user query ◌>>=◌ map_error
  basic_auth-any_password first second = ground arith
