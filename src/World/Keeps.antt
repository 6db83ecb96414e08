-- ===== src/World/Keeps.antt =====
-- Invariants of actions: one rule for each way to build an action.
use ozon_final.Base.{Bool, true, false, if◌then◌else◌}
use ozon_final.Errors.{Error, Result, ok, err}
use ozon_final.World.{World, Action, pure, raise, lift, ◌>>=◌, continue, map_error}

-- From a state with `P` the action ends in one with `P`, with a value or with an error.
pub record Keeps {ℓ} {A : Type ℓ} (P : World → Type 0) (m : Action A) : Type ℓ where
  pub at : (w : World) → P w → P (m w).1

module _ {P : World → Type 0} where
  module _ {ℓ} {A : Type ℓ} where
    pub Keeps-pure : (a : A) → Keeps P (pure a)
    Keeps-pure a = record { at = λ w h. h }

    pub Keeps-raise : (e : Error) → Keeps P (raise {A = A} e)
    Keeps-raise e = record { at = λ w h. h }

    pub Keeps-lift : (r : Result A) → Keeps P (lift r)
    Keeps-lift r = record { at = λ w h. h }

    pub Keeps-if :
        (b : Bool) (m n : Action A) → Keeps P m → Keeps P n → Keeps P (if b then m else n)
    Keeps-if true m n km kn = km
    Keeps-if false m n km kn = kn

    pub Keeps-map_error : (f : Error → Error) (m : Action A) → Keeps P m → Keeps P (map_error f m)
    unfolding map_error
    Keeps-map_error f m km = record { at = λ w h. km.at w h }

  module _ {ℓ κ} {A : Type ℓ} {B : Type κ} where
    Keeps-continue :
        (r : Result A) (f : A → Action B) → ((a : A) → Keeps P (f a)) → Keeps P (continue r f)
    Keeps-continue (ok a) f kf = kf a
    Keeps-continue (err e) f kf = record { at = λ w h. h }

    pub Keeps-bind :
        (m : Action A) (f : A → Action B)
        → Keeps P m
        → ((a : A) → Keeps P (f a))
        → Keeps P (m >>= f)
    unfolding ◌>>=◌
    Keeps-bind m f km kf = record {
      at = λ w h. let (r, w') = m w in (Keeps-continue r f kf).at w' (km.at w h);
    }

pub ruleset keeps_rules =
    (Keeps-pure, Keeps-raise, Keeps-lift, Keeps-if, Keeps-map_error, Keeps-bind)
