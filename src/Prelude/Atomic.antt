-- ===== src/Prelude/Atomic.antt =====
-- Actions that leave the state alone, that always succeed, and that leave the state alone if they
-- fail.
use mathlib.Core.Path.{◌≡◌, refl}
use mathlib.Core.Bool.{Bool, true, false}
use sepp.Prelude.Tests.{if◌then◌else◌}
use sepp.Prelude.Result.{
  Status, Result, ok, err, Exec, pure, raise, lift, gets, ◌>>=◌, proceed, modify,
}

abbrev pub is_ok {ℓ} : {A : Type ℓ} → Result A → Bool
is_ok (ok a) = true
is_ok (err e) = false

module _ {S A : Type 0} where
  pub record Reads (m : Exec S A) : Type 0 where
    pub at : (s : S) → (m s).1 ≡ s

  pub record Succeeds (m : Exec S A) : Type 0 where
    pub at : (s : S) → is_ok (m s).0 ≡ true

  pub record IsAtomic (m : Exec S A) : Type 0 where
    pub at : (s : S) → is_ok (m s).0 ≡ false → (m s).1 ≡ s

  pub IsAtomic-Reads : (m : Exec S A) → Reads m → IsAtomic m
  IsAtomic-Reads m h = record { at = λ s _. h.at s }

  pub IsAtomic-Succeeds : (m : Exec S A) → Succeeds m → IsAtomic m
  IsAtomic-Succeeds m h = record { at = λ s e. cc (h.at s, e) }

  pub Succeeds-pure : (a : A) → Succeeds (pure a)
  Succeeds-pure a = record { at = λ s. refl }

  pub Reads-pure : (a : A) → Reads (pure a)
  Reads-pure a = record { at = λ s. refl }

  pub Reads-raise : (e : Status) → Reads (raise e)
  Reads-raise e = record { at = λ s. refl }

  pub Reads-lift : (r : Result A) → Reads (lift r)
  Reads-lift r = record { at = λ s. refl }

  pub Reads-gets : (f : S → A) → Reads (gets f)
  Reads-gets f = record { at = λ s. refl }

  pub Reads-if : (b : Bool) (m n : Exec S A) → Reads m → Reads n → Reads (if b then m else n)
  Reads-if true m n hm hn = hm
  Reads-if false m n hm hn = hn

  pub Succeeds-if :
      (b : Bool) (m n : Exec S A) → Succeeds m → Succeeds n → Succeeds (if b then m else n)
  Succeeds-if true m n hm hn = hm
  Succeeds-if false m n hm hn = hn

  pub IsAtomic-if :
      (b : Bool) (m n : Exec S A) → IsAtomic m → IsAtomic n → IsAtomic (if b then m else n)
  IsAtomic-if true m n hm hn = hm
  IsAtomic-if false m n hm hn = hn

module _ {S A B : Type 0} where
  pub Reads-bind :
      (m : Exec S A) (f : A → Exec S B) → Reads m → ((a : A) → Reads (f a)) → Reads (m >>= f)
  unfolding ◌>>=◌
  Reads-bind m f hm hf = record { at = λ s. next s (m s).0 (m s).1 (hm.at s) }
    where
      next : (s : S) (r : Result A) (t : S) → t ≡ s → (proceed r f t).1 ≡ s
      next s (ok a) t e = cc ((hf a).at t, e)
      next s (err x) t e = e

  pub Succeeds-bind :
      (m : Exec S A) (f : A → Exec S B)
      → Succeeds m
      → ((a : A) → Succeeds (f a))
      → Succeeds (m >>= f)
  unfolding ◌>>=◌
  Succeeds-bind m f hm hf = record { at = λ s. next (m s).0 (m s).1 (hm.at s) }
    where
      next : (r : Result A) (t : S) → is_ok r ≡ true → is_ok (proceed r f t).0 ≡ true
      next (ok a) t e = (hf a).at t
      next (err x) t e = e

  -- Reads, then an atomic rest.
  pub IsAtomic-bind :
      (m : Exec S A) (f : A → Exec S B) → Reads m → ((a : A) → IsAtomic (f a)) → IsAtomic (m >>= f)
  unfolding ◌>>=◌
  IsAtomic-bind m f hm hf = record { at = λ s. next s (m s).0 (m s).1 (hm.at s) }
    where
      next :
          (s : S) (r : Result A) (t : S)
          → t ≡ s
          → is_ok (proceed r f t).0 ≡ false
          → (proceed r f t).1 ≡ s
      next s (ok a) t e g = cc ((hf a).at t g, e)
      next s (err x) t e g = e

  -- An atomic part, then a rest that succeeds.
  pub IsAtomic-then :
      (m : Exec S A) (f : A → Exec S B)
      → IsAtomic m
      → ((a : A) → Succeeds (f a))
      → IsAtomic (m >>= f)
  unfolding ◌>>=◌
  IsAtomic-then m f hm hf = record { at = λ s. next s (m s).0 (m s).1 (hm.at s) }
    where
      next :
          (s : S) (r : Result A) (t : S)
          → (is_ok r ≡ false → t ≡ s)
          → is_ok (proceed r f t).0 ≡ false
          → (proceed r f t).1 ≡ s
      next s (ok a) t e g = cc ((hf a).at t, g)
      next s (err x) t e g = e refl

pub Succeeds-modify : {S : Type 0} (f : S → S) → Succeeds (modify f)
Succeeds-modify f = record { at = λ s. refl }

pub ruleset reads_rules = (Reads-pure, Reads-raise, Reads-lift, Reads-gets, Reads-if, Reads-bind)

pub ruleset succeeds_rules = (Succeeds-pure, Succeeds-if, Succeeds-bind, Succeeds-modify)
