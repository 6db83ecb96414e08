-- ===== src/Storage/Races/Seen.antt =====
-- What every run of requests side by side leaves in the cache and in the updates still to come.
use ozon_final.Base.{
  String, ◌≡◌, refl, sym, ap, ◌∙◌, ◌⊎◌, inl, inr, none, some, List, ◌∷◌, ◌++◌, All, All-map,
  All-remove_at, arith,
}
use mathlib.Core.Path.{subst}
use ozon_final.Base.Dict.{Dict, lookup}
use ozon_final.Errors.{Result, ok, err}
use ozon_final.Repository
use ozon_final.World.{Env, Tables, World, ◌>>=◌, map_error}
use ozon_final.Cache
use ozon_final.Postgres.{query}
use ozon_final.Postgres.Orders.{find_order, order_row, get_by_id}
use ozon_final.Postgres.Orders.Lookup.{id-find_order}
use ozon_final.Storage.{Order, to_row}
use ozon_final.Storage.Orders.{get_order}
use ozon_final.Storage.Calls.{Method, perform}
use ozon_final.Storage.Updates.Applied.{perform-updates}
use ozon_final.Storage.Committed.{IsHonest}
use ozon_final.Storage.Coherence.{IsStable, Known, InSync, InSync-row}
use ozon_final.Storage.Reading.{db-get_order}
use ozon_final.Storage.Sync.{perform-Known}
use ozon_final.Storage.Updates.{Update, apply, updates}
use ozon_final.Storage.Updates.Lookup.{put-or_before, lookup-apply}
use ozon_final.Storage.Races.{
  Shared, quiet, read_updates, Step, write, miss, finish, Steps, here, next, IsRow, Was,
}

module _ (env : Env) where
  -- An order that `GetOrder` has not found in the cache is the row of its id.
  pub miss-IsRow :
      (id : String) (w : World) {o : Order}
      → ((y : Repository.Order) → find_order id w.db.orders ≡ some y → order_row env y ≡ y)
      → Cache.get id w.cache ≡ none
      → (get_order env id w).0 ≡ ok o
      → IsRow env w.db.orders id (to_row o)
  unfolding Cache.get get_order get_by_id query ◌>>=◌ map_error
  miss-IsRow id w {o} stored none_cached e =
      ground (arith, stored (to_row o), id-find_order id w.db.orders {o = to_row o})

  module _ {s t : Shared} (r : Steps env s t) where
    -- An order that an update can put into the cache has been the row of its id.
    abbrev Awaited : List Update → Type 0
    Awaited us =
        (c : Dict Repository.Order) (j : String) (o : Repository.Order)
        → lookup j (apply us c) ≡ some o
        → (lookup j c ≡ some o) ⊎ Was env r j o

    -- What a run has left: the columns keep the rows, and every order that is in the cache, or that an
    -- update can put there, has been the row of its id.
    pub record Seen : Type 0 where
      pub stored :
          (j : String) (o : Repository.Order)
          → find_order j t.world.db.orders ≡ some o
          → order_row env o ≡ o
      pub cached :
          (j : String) (o : Repository.Order) → lookup j t.world.cache ≡ some o → Was env r j o
      awaited : All Awaited t.pending

  module _ {s t : Shared} (r : Steps env s t) where
    -- What is so for one cache is so for all.
    from_one :
        (us : List Update) (c₀ : Dict Repository.Order)
        → ((j : String) (o : Repository.Order) → lookup j (apply us c₀) ≡ some o → Was env r j o)
        → Awaited r us
    from_one us c₀ k c j o e = by_case (lookup-apply us j)
      where
        by_case :
            ((c c' : Dict Repository.Order) → lookup j (apply us c) ≡ lookup j (apply us c'))
              ⊎ ((c : Dict Repository.Order) → lookup j (apply us c) ≡ lookup j c)
            → (lookup j c ≡ some o) ⊎ Was env r j o
        by_case (inl same) = inr (k j o (same c₀ c ∙ e))
        by_case (inr same) = inl (sym (same c) ∙ e)

    module _ {u : Shared} (st : Step env t u) where
      later : (uss : List (List Update)) → All (Awaited r) uss → All (Awaited (next r st)) uss
      unfolding Was
      later uss =
          All-map (Awaited r) (Awaited (next r st)) uss λ us k c j o e. by_case c j o (k c j o e)
        where
          by_case :
              (c : Dict Repository.Order) (j : String) (o : Repository.Order)
              → (lookup j c ≡ some o) ⊎ Was env r j o
              → (lookup j c ≡ some o) ⊎ Was env (next r st) j o
          by_case c j o (inl k) = inl k
          by_case c j o (inr k) = inr (inl k)

  module _ (honest : IsHonest env) (stable : IsStable env) where
    write-Seen : {s t : Shared} (r : Steps env s t) (m : Method) → Seen r → Seen (next r (write m))
    unfolding Was
    write-Seen {t} r m h = record {
      stored = known.stored;
      cached = λ j o e. inl (h.cached j o e);
      awaited = (
        from_one (next r (write m)) (updates env m t.world) t.world.cache (λ j o e.
            by_case (known.coherent j o (ap (lookup j) (perform-updates env m t.world) ∙ e))),
        later r (write m) t.pending h.awaited,
      );
    }
      where
        known :
            Known env
              (Was env r)
              (perform env m t.world).1.db.orders
              (perform env m t.world).1.cache
        known =
            perform-Known env honest stable (Was env r) t.world
              (record { stored = h.stored; coherent = λ j o e. inr (h.cached j o e) }) m

        by_case :
            {j : String} {o : Repository.Order}
            → IsRow env (perform env m t.world).1.db.orders j o ⊎ Was env r j o
            → Was env (next r (write m)) j o
        by_case (inl k) = inr k
        by_case (inr k) = inl k

    miss-Seen :
        {s t : Shared} (r : Steps env s t) (id : String)
        (absent : Cache.get id t.world.cache ≡ none)
        → Seen r
        → Seen (next r (miss id absent))
    unfolding Was apply
    miss-Seen {t} r id absent h = record {
      stored = subst Stored (sym (db-get_order env id t.world)) h.stored;
      cached = λ j o e. inl (h.cached j o e);
      awaited = (
        λ c j o e.
            of_read (get_order env id t.world).0
              (λ y q. miss-IsRow id t.world (h.stored id) absent q) c j o e,
        later r (miss id absent) t.pending h.awaited,
      );
    }
      where
        of_read :
            (x : Result Order)
            → ((y : Order) → x ≡ ok y → IsRow env t.world.db.orders id (to_row y))
            → (c : Dict Repository.Order) (j : String) (o : Repository.Order)
            → lookup j (apply (read_updates x) c) ≡ some o
            → (lookup j c ≡ some o)
              ⊎ Was env r j o
              ⊎ IsRow env (get_order env id t.world).1.db.orders j o
        of_read (ok y) k c j o e = by_case (put-or_before (to_row y) c j o e)
          where
            by_case :
                (lookup j c ≡ some o) ⊎ (((to_row y).id ≡ j) × (to_row y ≡ o))
                → (lookup j c ≡ some o)
                  ⊎ Was env r j o
                  ⊎ IsRow env (get_order env id t.world).1.db.orders j o
            by_case (inl before) = inl before
            by_case (inr this) = inr (
                inr (
                  subst (λ (x : Tables). IsRow env x.orders j o) (sym (db-get_order env id t.world))
                    (subst (IsRow env t.world.db.orders j) this.1 (
                      subst (λ i. IsRow env t.world.db.orders i (to_row y))
                        (sym (k y refl).0 ∙ this.0) (k y refl)))))
        of_read (err x) k c j o e = inl e

        Stored : Tables → Type 0
        Stored x =
            (j : String) (o : Repository.Order)
            → find_order j x.orders ≡ some o
            → order_row env o ≡ o

    finish-Seen :
        {s t : Shared} (r : Steps env s t) (before after : List (List Update)) (us : List Update)
        (at : t.pending ≡ before ++ us ∷ after)
        → Seen r
        → Seen (next r (finish before after us at))
    unfolding Was
    finish-Seen {t} r before after us at h = record {
      stored = h.stored;
      cached = λ j o e. by_case j o (both.0 t.world.cache j o e);
      awaited = later r (finish before after us at) (before ++ after) both.1;
    }
      where
        both : Awaited r us × All (Awaited r) (before ++ after)
        both = All-remove_at _ before us after (subst (All (Awaited r)) at h.awaited)

        by_case :
            (j : String) (o : Repository.Order)
            → (lookup j t.world.cache ≡ some o) ⊎ Was env r j o
            → Was env r j o ⊎ IsRow env t.world.db.orders j o
        by_case j o (inl e) = inl (h.cached j o e)
        by_case j o (inr e) = inl e

    pub run-Seen :
        (w : World) {t : Shared} (r : Steps env (quiet w) t)
        → InSync env w.db.orders w.cache
        → Seen r
    unfolding Was
    run-Seen w here h = record {
      stored = h.stored;
      cached = λ j o e. InSync-row env w.db.orders w.cache h j o e;
      awaited = tt;
    }
    run-Seen w (next r (write m)) h = write-Seen r m (run-Seen w r h)
    run-Seen w (next r (miss id absent)) h = miss-Seen r id absent (run-Seen w r h)
    run-Seen w (next r (finish before after us at)) h =
        finish-Seen r before after us at (run-Seen w r h)
