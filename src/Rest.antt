-- ===== src/Rest.antt =====
-- internal/server/server.go: what the HTTP handlers share, and the middleware in front of them.
pub mod Orders
pub mod Routes
pub mod Lifecycle
pub mod Lists
pub mod Bulk
pub mod Refusals
pub mod Access
pub mod Deletion
pub mod Results
use ozon_final.Base.{ℕ, String, Bool, true, false, Option, none, some, List, [], ◌∷◌, if◌then◌else◌}
use ozon_final.Base.Dict.{Dict}
use ozon_final.Errors.{Error, Result, ok, err}
use ozon_final.World.{Env, World, Action}
use ozon_final.Postgres.Users.{validate_user}
use ozon_final.Storage.{Order, Return, HistoryEntry}

-- The value that `respondJSON` encodes, or the text of `http.Error`.
pub data Body : Type 0 where
  plain : String → Body
  fields : Dict String → Body
  order : Order → Body
  orders : List Order → Body
  returns : List Return → Body
  history : List HistoryEntry → Body

pub record Response : Type 0 where
  pub status : ℕ
  pub body : Body

abbrev pub Handler : Type 0
Handler = World → Response × World

-- `respondJSON` and `respondError`
abbrev pub respond : ℕ → Body → Handler
respond status body w = (record { status = status; body = body }, w)

abbrev pub respond_error : ℕ → String → Handler
respond_error status message = respond status (fields (("error", message) ∷ []))

-- A call of the storage, with what the handler does on either result.
module _ {A : Type 0} where
  abbrev pub on_result : Result A → (A → Handler) → (Error → Handler) → Handler
  on_result (ok a) f g w = f a w
  on_result (err e) f g w = g e w

  abbrev pub call : Action A → (A → Handler) → (Error → Handler) → Handler
  call m f g w = let (r, w') = m w in on_result r f g w'

abbrev pub unauthorized : Handler
unauthorized = respond 401 (plain "Unauthorized")

-- `basicAuthMiddleware`, on what `r.BasicAuth()` has found in the header
unfoldable pub basic_auth : Env → Option (String × String) → Handler → Handler
basic_auth env none next = unauthorized
basic_auth env (some (name, password)) next =
    call (validate_user env name password) (λ valid. if valid then next else unauthorized)
      (λ e. unauthorized)
