-- ===== src/Prelude/Maintains.antt =====
-- Invariants of actions. An internal error is fatal: it rolls the whole cycle back, so an invariant
-- need only hold after a success or after any other error.
use mathlib.Core.Path.{◌≡◌, refl}
use mathlib.Core.Bool.{Bool, true, false}
use sepp.Prelude.Tests.{if◌then◌else◌}
use sepp.Prelude.Result.{
  Code, Status, Result, ok, err, Exec, pure, raise, lift, gets, ◌>>=◌, proceed,
}

-- `e.code() == tonic::Code::Internal`.
unfoldable pub is_internal : Code → Bool
is_internal Code.internal = true
is_internal Code.not_found = false
is_internal Code.failed_precondition = false
is_internal Code.invalid_argument = false

abbrev pub is_fatal {ℓ} : {A : Type ℓ} → Result A → Bool
is_fatal (ok a) = false
is_fatal (err e) = is_internal e.code

pub record Maintains {S A : Type 0} (P : S → Type 0) (m : Exec S A) : Type 0 where
  pub at : (s : S) → P s → is_fatal (m s).0 ≡ false → P (m s).1

module _ {S A : Type 0} {Inv : S → Type 0} where
  pub Maintains-if :
      (test : Bool) (taken other : Exec S A)
      → Maintains Inv taken
      → Maintains Inv other
      → Maintains Inv (if test then taken else other)
  Maintains-if false taken other hy hn = hn
  Maintains-if true taken other hy hn = hy

  pub Maintains-gets : (read : S → A) → Maintains Inv (gets read)
  Maintains-gets read = record { at = λ s inv _. inv }

  pub Maintains-lift : (found : Result A) → Maintains Inv (lift found)
  Maintains-lift found = record { at = λ s inv _. inv }

  pub Maintains-pure : (value : A) → Maintains Inv (pure value)
  Maintains-pure value = record { at = λ s inv _. inv }

  pub Maintains-raise : (status : Status) → Maintains Inv (raise {A = A} status)
  Maintains-raise status = record { at = λ s inv _. inv }

module _ {S A B : Type 0} {Inv : S → Type 0} where
  -- The rest of the block starts from where the first action ends.
  pub Maintains-proceed :
      (found : Result A) (rest : A → Exec S B) (s : S)
      → (is_fatal found ≡ false → Inv s)
      → ((x : A) → Maintains Inv (rest x))
      → is_fatal (proceed found rest s).0 ≡ false
      → Inv (proceed found rest s).1
  Maintains-proceed (err e) rest s inv h calm = inv calm
  Maintains-proceed (ok x) rest s inv h calm = (h x).at s (inv refl) calm

  pub Maintains-bind :
      (first : Exec S A) (rest : A → Exec S B)
      → Maintains Inv first
      → ((x : A) → Maintains Inv (rest x))
      → Maintains Inv (first >>= rest)
  unfolding ◌>>=◌
  Maintains-bind first rest hf hr = record {
    at = λ s inv calm. Maintains-proceed (first s).0 rest (first s).1 (hf.at s inv) hr calm;
  }

pub ruleset maintains_rules =
    (Maintains-bind, Maintains-if, Maintains-pure, Maintains-lift, Maintains-gets, Maintains-raise)
