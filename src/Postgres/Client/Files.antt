-- ===== src/Postgres/Client/Files.antt =====
-- Which environment file `loadEnv` takes.
use ozon_final.Base.{◌≡◌, refl, sym, Option, none, some, String, List, [], ◌∷◌, ◌++◌, map}
use mathlib.Core.Path.{subst}
use ozon_final.Base.Dict.{Dict}
use ozon_final.Postgres.Client.{
  Location, Process, parent, possible_paths, example_path, load_first, or_else, load_from, load_env,
}

-- The files that are tried, in their order, and what the first that loads gives.
pub data Chosen (load : Location → Dict String → Option (Dict String)) (vars : Dict String)
    : List Location → Option (Dict String) → Type 0 where
  nothing : Chosen load vars [] none
  found :
      {file : Location} {files : List Location} {vars' : Dict String}
      → load file vars ≡ some vars'
      → Chosen load vars (file ∷ files) (some vars')
  skipped :
      {file : Location} {files : List Location} {r : Option (Dict String)}
      → load file vars ≡ none
      → Chosen load vars files r
      → Chosen load vars (file ∷ files) r

module _ (load : Location → Dict String → Option (Dict String)) (vars : Dict String) where
  load_first-Chosen :
      (files others : List Location)
      → Chosen load vars
          (files ++ others)
          (or_else (load_first load files vars) (load_first load others vars))
  unfolding load_first
  load_first-Chosen [] [] = nothing
  load_first-Chosen [] (file ∷ files) = by_load (load file vars) refl (load_first-Chosen [] files)
    where
      by_load :
          (r : Option (Dict String))
          → load file vars ≡ r
          → Chosen load vars files (load_first load files vars)
          → Chosen load vars (file ∷ files) (elim r as (λ _. Option (Dict String)) [
            | some vars' ↦ some vars'
            | none ↦ load_first load files vars
          ])
      by_load none e rest = skipped e rest
      by_load (some vars') e rest = found e
  load_first-Chosen (file ∷ files) others =
      by_load (load file vars) refl (load_first-Chosen files others)
    where
      by_load :
          (r : Option (Dict String))
          → load file vars ≡ r
          → Chosen load vars
              (files ++ others)
              (or_else (load_first load files vars) (load_first load others vars))
          → Chosen load vars (file ∷ files ++ others) (
              or_else
                (elim r as (λ _. Option (Dict String)) [
                  | some vars' ↦ some vars'
                  | none ↦ load_first load files vars
                ])
                (load_first load others vars))
      by_load none e rest = skipped e rest
      by_load (some vars') e rest = found e

-- `.env` in the working directory, its parent and the parent of that, and then `.example.env` in the
-- same three places.
abbrev pub env_files : Location → List Location
env_files dir =
    (".env" ∷ dir)
    ∷ (".env" ∷ parent dir)
    ∷ (".env" ∷ parent (parent dir))
    ∷ (".example.env" ∷ dir)
    ∷ (".example.env" ∷ parent dir)
    ∷ (".example.env" ∷ parent (parent dir))
    ∷ []

-- With a working directory, `loadEnv` gives what the first of the six files that loads gives, and ends
-- the program if none does; a file called .env in any of the three places goes before every
-- .example.env.
pub load_env-Chosen :
    (p : Process) {dir : Location}
    → p.directory ≡ some dir
    → Chosen p.load p.variables (env_files dir) (load_env p)
unfolding load_env
load_env-Chosen p {dir} e =
    subst (λ d. Chosen p.load p.variables (env_files dir) (load_from p d)) (sym e)
      (load_first-Chosen p.load p.variables (possible_paths dir)
        (map example_path (possible_paths dir)))
