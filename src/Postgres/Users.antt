-- ===== src/Postgres/Users.antt =====
-- internal/repository/postgresql/user.go and internal/db/InitAdmin.go, with the table of
-- migrations/20250310212639_add_user_table.sql.
use ozon_final.Base.{
  String, Bool, true, false, Option, none, some, List, [], ◌∷◌, ◌++◌, if◌then◌else◌, ◌==◌,
}
use ozon_final.Errors.{text, ok}
use ozon_final.Repository.{User}
use ozon_final.World.{Env, duplicate_key, Action, pure, raise, lift, ◌>>=◌, map_error}
use ozon_final.Postgres.{Statement, in_tx, on_pool, violated, exec, query}

-- `SELECT password FROM users WHERE username = $1`
unfoldable pub find_password : String → List User → Option String
find_password name [] = none
find_password name (u ∷ us) = if u.username == name then some u.password else find_password name us

abbrev pub has_user : String → List User → Bool
has_user name us = elim (find_password name us) [ none ↦ false | some _ ↦ true ]

module _ (env : Env) where
  unfoldable pub insert_user : String → String → Statement (Unit {0})
  insert_user name password n t =
      if has_user name t.users
      then violated env duplicate_key
      else ok
          (tt, record t { users = t.users ++ record { username = name; password = password } ∷ [] })

  -- `CreateUser` and `CreateUserTx`
  unfoldable pub create_user : String → String → Action (Unit {0})
  create_user name password = do
    hashed ← lift (env.hash_password password)
    exec env on_pool (insert_user name hashed)

  unfoldable pub create_user_tx : String → String → Action (Unit {0})
  create_user_tx name password = do
    hashed ← lift (env.hash_password password)
    exec env in_tx (insert_user name hashed)

  -- The result of the comparison is printed, and dropped.
  abbrev pub compared : String → Option String → Action Bool
  compared password none = raise (text "user not found")
  compared password (some hashed) =
      if env.matches_hash hashed password then pure true else pure true

  unfoldable pub validate_user : String → String → Action Bool
  validate_user name password = do
    found ←
        map_error (λ e. text "user not found")
          (query env on_pool (λ t. ok (find_password name t.users)))
    compared password found

  -- `InitAdmin`, with the two environment variables; an error ends the program
  unfoldable pub init_admin : String → String → Action (Unit {0})
  init_admin name password = do
    known ← query env on_pool (λ t. ok (has_user name t.users))
    if known then pure tt else exec env on_pool (insert_user name password)
