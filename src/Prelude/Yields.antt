-- ===== src/Prelude/Yields.antt =====
-- What holds of the result of an action, if there is one, from whatever state.
use mathlib.Core.Path.{◌≡◌}
use sepp.Prelude.Result.{Result, ok, err, Exec, pure, ◌>>=◌, proceed}

abbrev pub Holds {ℓ} : {A : Type ℓ} → (A → Type 0) → Result A → Type 0
Holds P (ok a) = P a
Holds P (err e) = Unit

module _ {S A : Type 0} where
  pub record Yields (P : A → Type 0) (m : Exec S A) : Type 0 where
    pub at : (s : S) → Holds P (m s).0

  pub Yields-pure : (P : A → Type 0) (a : A) → P a → Yields P (pure a)
  Yields-pure P a h = record { at = λ s. h }

module _ {S A B : Type 0} where
  pub Yields-bind :
      (P : A → Type 0) (Q : B → Type 0) (m : Exec S A) (f : A → Exec S B)
      → Yields P m
      → ((a : A) → P a → Yields Q (f a))
      → Yields Q (m >>= f)
  unfolding ◌>>=◌
  Yields-bind P Q m f hm hf = record { at = λ s. next (m s).0 (m s).1 (hm.at s) }
    where
      next : (r : Result A) (t : S) → Holds P r → Holds Q (proceed r f t).0
      next (ok a) t h = (hf a h).at t
      next (err e) t h = tt

  -- A first part of which nothing need be known.
  pub Yields-after :
      (Q : B → Type 0) (m : Exec S A) (f : A → Exec S B)
      → ((a : A) → Yields Q (f a))
      → Yields Q (m >>= f)
  unfolding ◌>>=◌
  Yields-after Q m f hf = record { at = λ s. next (m s).0 (m s).1 }
    where
      next : (r : Result A) (t : S) → Holds Q (proceed r f t).0
      next (ok a) t = (hf a).at t
      next (err e) t = tt

module _ {S A : Type 0} where
  pub Yields-ok :
      (P : A → Type 0) (m : Exec S A) (s : S) (a : A) → Yields P m → (m s).0 ≡ ok a → P a
  Yields-ok P m s a h e = rw e at (h.at s)
