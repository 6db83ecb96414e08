-- ===== src/Postgres/Ensures.antt =====
-- What an action that runs in a transaction ensures of the working copy when it returns a value.
use ozon_final.Base.{ℕ, Bool, true, false, if◌then◌else◌, ◌≡◌, refl}
use ozon_final.Errors.{Error, Result, ok, err}
use ozon_final.World.{
  Env, Tables, World, Answer, served, refused, lost, Action, pure, raise, ◌>>=◌, continue,
  map_error, mapped, now, new_id,
}
use ozon_final.Postgres.{Statement, in_tx, settle, answered, exec, query}

module _ {A : Type 0} (Q : A → Tables → Type 0) where
  abbrev pub Post : Result A × World → Type 0
  Post (ok a, w) = Q a w.work
  Post (err e, w) = Unit

-- What an accepted statement ensures of its tables.
pub record StatementPost {A : Type 0} (Q : A → Tables → Type 0) (r : Result (A × Tables))
    : Type 0 where
  pub at : (a : A) (t : Tables) → r ≡ ok (a, t) → Q a t

-- From a working copy with `P`, a value `a` comes with a working copy with `Q a`.
pub record Ensures {A : Type 0} (P : Tables → Type 0) (m : Action A) (Q : A → Tables → Type 0)
    : Type 0 where
  pub at : (w : World) → P w.work → Post Q (m w)

module _ {A : Type 0} (P : Tables → Type 0) (Q : A → Tables → Type 0) where
  pub Ensures-pure : (a : A) → ((t : Tables) → P t → Q a t) → Ensures P (pure a) Q
  Ensures-pure a k = record { at = λ w h. k w.work h }

  pub Ensures-raise : (e : Error) → Ensures P (raise e) Q
  Ensures-raise e = record { at = λ w h. tt }

  pub Ensures-if :
      (b : Bool) (m n : Action A)
      → (b ≡ true → Ensures P m Q)
      → (b ≡ false → Ensures P n Q)
      → Ensures P (if b then m else n) Q
  Ensures-if true m n km kn = km refl
  Ensures-if false m n km kn = kn refl

  pub Ensures-map_error :
      (f : Error → Error) (m : Action A) → Ensures P m Q → Ensures P (map_error f m) Q
  unfolding map_error
  Ensures-map_error f m km = record { at = λ w h. mapped_post (m w) (km.at w h) }
    where
      mapped_post : (r : Result A × World) → Post Q r → Post Q (mapped f r.0, r.1)
      mapped_post (ok a, w) h = h
      mapped_post (err e, w) h = tt

  module _ (env : Env) where
    Post-settle :
        (a : Answer) (r : Result (A × Tables)) (w : World)
        → StatementPost Q r
        → Post Q (settle in_tx a r w)
    Post-settle served (ok (a, t)) w h = h.at a t refl
    Post-settle served (err e) w h = tt
    Post-settle (refused m) r w h = tt
    Post-settle (lost m) (ok (a, t)) w h = tt
    Post-settle (lost m) (err e) w h = tt

    pub Ensures-exec :
        (st : Statement A)
        → ((n : ℕ) (t : Tables) → P t → StatementPost Q (st n t))
        → Ensures P (exec env in_tx st) Q
    unfolding exec
    Ensures-exec st k = record {
      at = λ w h. Post-settle (env.answer w.calls) (st w.calls w.work) _ (k w.calls w.work h);
    }

  Post-answered :
      (a : Answer) (r : Result A) (w : World)
      → ((x : A) → r ≡ ok x → Q x w.work)
      → Post Q (answered a r w)
  Post-answered served (ok x) w h = h x refl
  Post-answered served (err e) w h = tt
  Post-answered (refused m) r w h = tt
  Post-answered (lost m) r w h = tt

  pub Ensures-query :
      (env : Env) (f : Tables → Result A)
      → ((t : Tables) → P t → (x : A) → f t ≡ ok x → Q x t)
      → Ensures P (query env in_tx f) Q
  unfolding query
  Ensures-query env f k = record {
    at = λ w h. Post-answered (env.answer w.calls) (f w.work) _ (k w.work h);
  }

module _ {A B : Type 0} (P : Tables → Type 0) (Q : A → Tables → Type 0)
    (R : B → Tables → Type 0) where
  pub Ensures-bind :
      (m : Action A) (f : A → Action B)
      → Ensures P m Q
      → ((a : A) → Ensures (Q a) (f a) R)
      → Ensures P (m >>= f) R
  unfolding ◌>>=◌
  Ensures-bind m f km kf = record { at = λ w h. next (m w) (km.at w h) }
    where
      next : (r : Result A × World) → Post Q r → Post R (continue r.0 f r.1)
      next (ok a, w) h = (kf a).at w h
      next (err e, w) h = tt

module _ (P : Tables → Type 0) (env : Env) where
  pub Ensures-now : Ensures P (now env) (λ _. P)
  unfolding now
  Ensures-now = record { at = λ w h. h }

  pub Ensures-new_id : Ensures P (new_id env) (λ _. P)
  unfolding new_id
  Ensures-new_id = record { at = λ w h. h }

module _ {A : Type 0} (Q : A → Tables → Type 0) where
  pub StatementPost-map :
      (R : A → Tables → Type 0) {r : Result (A × Tables)}
      → StatementPost Q r
      → ((a : A) (t : Tables) → Q a t → R a t)
      → StatementPost R r
  StatementPost-map R h k = record { at = λ a t e. k a t (h.at a t e) }

-- A fact that does not depend on the tables is at hand in what follows.
pub Ensures-fact :
    {A : Type 0} {F : Type 0} (P : Tables → Type 0) (Q : A → Tables → Type 0) (m : Action A)
    → (F → Ensures P m Q)
    → Ensures (λ t. P t × F) m Q
Ensures-fact P Q m k = record { at = λ w h. (k h.1).at w h.0 }
