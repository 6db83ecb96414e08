-- ===== src/System/Safe.antt =====
-- The orders, their history and the cache, from the start of `main` on.
use ozon_final.Base.{String, ◌≡◌, refl, sym, Option, none, some, [], arith}
use mathlib.Core.Path.{subst, subst₂}
use ozon_final.Base.Dict.{Dict, lookup}
use ozon_final.Errors.{Result, ok, err}
use ozon_final.World.{Env, Tables, World, no_tables, ◌>>=◌}
use ozon_final.Postgres.{exec, query}
use ozon_final.Postgres.Users.{init_admin, insert_user}
use ozon_final.Postgres.Client.{Process, load_env, new_db, get_env}
use ozon_final.Storage.Committed.{IsHonest}
use ozon_final.Storage.Coherence.{IsStable, InSync}
use ozon_final.Storage.Sync.{perform-InSync}
use ozon_final.Storage.Invariants.{perform-Tracked}
use ozon_final.Storage.Tracked.{Tracked}
use ozon_final.Storage.Reading.{
  Keyed, load_initial_data-InSync, get_order-InSync, db-get_order, db-load_initial_data,
}
use ozon_final.System.Views.{View, Of, IsKept}
use ozon_final.System.Boot.{
  Boot, exited, started, boot, fill_cache, with_admin, admin_of, connected, loaded,
  publisher_config,
}
use ozon_final.System.Steps.{Program, at_rest, Steps, Steps-Of}

-- The cache agrees with the committed rows, and the status of every order is the last one in its history.
pub record Coherent (env : Env) (w : World) : Type 0 where
  pub sync : InSync env w.db.orders w.cache
  pub tracked : Tracked w.db

module _ (env : Env) where
  abbrev coherent : View
  coherent os hs c = InSync env os c × Tracked (record no_tables { orders = os; history = hs })

  rows-Tracked :
      (t : Tables)
      → Tracked t
      → Tracked (record no_tables { orders = t.orders; history = t.history })
  rows-Tracked t h = record { at = h.at }

  coherent-IsKept : IsHonest env → IsStable env → IsKept env coherent
  coherent-IsKept honest stable = record {
    writes = λ m w h. (
      perform-InSync env honest stable w h.0 m,
      rows-Tracked _ (perform-Tracked env m w (record { at = h.1.at })),
    );
    reads = λ id w h. (
      get_order-InSync env stable id w h.0,
      subst (λ t. Tracked (record no_tables { orders = t.orders; history = t.history }))
          (sym (db-get_order env id w)) h.1,
    );
  }

  rows-init_admin :
      (name password : String) (w : World)
      → ((init_admin env name password w).1.db.orders ≡ w.db.orders)
        × ((init_admin env name password w).1.db.history ≡ w.db.history)
  unfolding init_admin insert_user exec query ◌>>=◌
  rows-init_admin name password w = ground arith

  abbrev Ready : World → Type 0
  Ready w =
      Keyed env w.db.orders
      × Tracked (record no_tables { orders = w.db.orders; history = w.db.history })

  -- What the start has reached.
  abbrev Reached : Boot → Type 0
  Reached (exited w) = Unit
  Reached (started w) = Of coherent w

  fill_cache-Of : (w : World) → Ready w → Of coherent (fill_cache env w)
  fill_cache-Of w h =
      let empty : World = record w { cache = [] } in
      (
        load_initial_data-InSync env empty h.0 refl,
        subst (λ t. Tracked (record no_tables { orders = t.orders; history = t.history }))
            (sym (db-load_initial_data env empty)) h.1,
      )

  with_admin-Reached : (r : Result (Unit {0}) × World) → Ready r.1 → Reached (with_admin env r)
  with_admin-Reached (ok _, w) h = fill_cache-Of w h
  with_admin-Reached (err e, w) h = tt

  admin_of-Reached :
      (vars : Option (Dict String)) (w : World) → Ready w → Reached (admin_of env vars w)
  unfolding lookup
  admin_of-Reached none w h = tt
  admin_of-Reached (some vars) w h =
      let name : String = get_env "ADMIN_USERNAME" vars in
      let password : String = get_env "ADMIN_PASSWORD" vars in
      with_admin-Reached (init_admin env name password w) (
        subst₂ (λ os hs. Keyed env os × Tracked (record no_tables { orders = os; history = hs }))
          (sym (rows-init_admin name password w).0) (sym (rows-init_admin name password w).1) h)

  loaded-Reached :
      (p : Process) (vars : Option (Dict String)) (w : World)
      → Ready w
      → Reached (loaded env p vars w)
  loaded-Reached p none w h = tt
  loaded-Reached p (some vars) w h = by_connection (new_db p vars)
    where
      by_connection : (r : Result (Unit {0})) → Reached (connected env p vars r w)
      by_connection (ok _) = admin_of-Reached (load_env (record p { variables = vars })) w h
      by_connection (err e) = tt

  boot-Reached : (p : Process) (w : World) → Ready w → Reached (boot env p w)
  unfolding boot
  boot-Reached p w h = loaded-Reached p (load_env p) w h

-- Suppose that the database never loses the reply of a call that took effect, that a column keeps what
-- it has kept of a time, and that the tables in which the program starts have one row for each order
-- id, what its columns keep, with the last status of the order's history. Once `main` has started its
-- servers and its publisher, the cache agrees with the committed rows and every order has the last
-- status of its history after any HTTP requests, gRPC calls and steps of the publisher, one at a time,
-- whatever they answer.
pub boot-Coherent :
    (env : Env)
    → IsHonest env
    → IsStable env
    → (p : Process) (w : World) {w' : World} {s : Program} → Keyed env w.db.orders
    → Tracked w.db
    → boot env p w ≡ started w'
    → Steps env publisher_config (at_rest w') s
    → Coherent env s.world
boot-Coherent env honest stable p w {w'} {s} keyed tracked e steps =
    let begun : Of (coherent env) w' =
      subst (Reached env) e (boot-Reached env p w (keyed, record { at = tracked.at })) in
    let now : Of (coherent env) s.world =
      Steps-Of env publisher_config (coherent env) (coherent-IsKept env honest stable) steps
        begun in
    record { sync = now.0; tracked = record { at = now.1.at } }
