-- ===== src/Postgres/Client.antt =====
-- internal/db/client.go: the environment file, the connection string and the connection.
pub mod Files
use Prim.Native.String.{◌++◌ as ◌++ₛ◌}
use ozon_final.Base.{String, Option, none, some, List, [], ◌∷◌, map}
use ozon_final.Base.Dict.{Dict, lookup}
use ozon_final.Errors.{Result}

-- An absolute path in its clean form: its elements, the last one first.
abbrev pub Location : Type 0
Location = List String

-- What the process finds and what it calls: the working directory, the variables that are set,
-- `godotenv.Load` (the variables after it, `none` for an error), the decimal text of the first result of
-- `strconv.Atoi`, and `pgxpool.Connect`.
pub record Process : Type 0 where
  pub directory : Option Location
  pub variables : Dict String
  pub load : Location → Dict String → Option (Dict String)
  pub port_text : String → String
  pub connect : String → Result (Unit {0})

-- The element ".." of a joined path, and `filepath.Dir`
abbrev pub parent : Location → Location
parent [] = []
parent (name ∷ dir) = dir

abbrev pub possible_paths : Location → List Location
possible_paths dir = (".env" ∷ dir) ∷ (".env" ∷ parent dir) ∷ (".env" ∷ parent (parent dir)) ∷ []

abbrev pub example_path : Location → Location
example_path file = ".example.env" ∷ parent file

-- A loop of `loadEnv`: the first file that loads ends it.
unfoldable pub load_first :
    (Location → Dict String → Option (Dict String))
    → List Location
    → Dict String
    → Option (Dict String)
load_first load [] vars = none
load_first load (file ∷ files) vars = elim (load file vars) [
  | some vars' ↦ some vars'
  | none ↦ load_first load files vars
]

abbrev pub or_else : Option (Dict String) → Option (Dict String) → Option (Dict String)
or_else (some vars) other = some vars
or_else none other = other

abbrev pub load_from : Process → Option Location → Option (Dict String)
load_from p none = none
load_from p (some dir) =
    or_else (load_first p.load (possible_paths dir) p.variables)
      (load_first p.load (map example_path (possible_paths dir)) p.variables)

-- `loadEnv`: the variables that the program runs with; `none` where `log.Fatal` ends it
unfoldable pub load_env : Process → Option (Dict String)
load_env p = load_from p p.directory

-- `os.Getenv`
abbrev pub get_env : String → Dict String → String
get_env name vars = elim (lookup name vars) [ none ↦ "" | some value ↦ value ]

unfoldable pub generate_dsn : Process → Dict String → String
unfolding lookup
generate_dsn p vars =
    "host="
    ++ₛ (get_env "DB_HOST" vars
        ++ₛ (" port="
            ++ₛ (p.port_text (get_env "DB_PORT" vars)
                ++ₛ (" user="
                    ++ₛ (get_env "POSTGRES_USER" vars
                        ++ₛ (" password="
                            ++ₛ (get_env "POSTGRES_PASSWORD" vars
                                ++ₛ (" dbname="
                                    ++ₛ (get_env "POSTGRES_DB" vars ++ₛ " sslmode=disable")))))))))

-- `NewDb`
unfoldable pub new_db : Process → Dict String → Result (Unit {0})
new_db p vars = p.connect (generate_dsn p vars)
