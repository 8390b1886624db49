-- ===== src/Prelude/Check.antt =====
-- Checks that pass or fail with an error, run in order up to the first failure: `Result<(), E>`
-- under the operator `?`.
use mathlib.Core.Path.{◌≡◌, refl}
use mathlib.Core.Logic.{◌⊎◌, inl, inr}
use mathlib.Core.Bool.{Bool, true, false}
use mathlib.Core.Option.{Option, none, some}
use mathlib.Core.List.{List, [], ◌∷◌}
use sepp.Prelude.Lists.{All}

pub data Check (E : Type 0) : Type 0 where
  pass : Check E
  fail : E → Check E

-- What holds of the value, when there is one.
abbrev pub IfSome : {A : Type 0} → Option A → (A → Type 0) → Type 0
IfSome none P = Unit
IfSome (some a) P = P a

-- `map_err`.
abbrev pub map_fail : {E F : Type 0} → (E → F) → Check E → Check F
map_fail f pass = pass
map_fail f (fail e) = fail (f e)

module _ {E : Type 0} where
  infixr 10 ◌then◌
  abbrev pub ◌then◌ : Check E → Check E → Check E
  pass then d = d
  (fail e) then d = fail e

  abbrev pub fail_if : Bool → E → Check E
  fail_if true e = fail e
  fail_if false e = pass

  -- `if let Some(x) = o { f(x)? }`.
  abbrev pub if_some : {A : Type 0} → Option A → (A → Check E) → Check E
  if_some none f = pass
  if_some (some a) f = f a

  abbrev pub each : {A : Type 0} → List A → (A → Check E) → Check E
  each [] f = pass
  each (x ∷ xs) f = f x then each xs f

  abbrev pub Passes : Check E → Type 0
  Passes c = c ≡ pass

  pub Check-cases : (c : Check E) → (c ≡ pass) ⊎ ((e : E) × (c ≡ fail e))
  Check-cases pass = inl refl
  Check-cases (fail e) = inr (e, refl)

  pub then-Passes : (c d : Check E) → Passes (c then d) → Passes c × Passes d
  then-Passes pass d h = (refl, h)
  then-Passes (fail e) d h = cc

  pub fail_if-Passes : (b : Bool) (e : E) → Passes (fail_if b e) → b ≡ false
  fail_if-Passes true e h = cc
  fail_if-Passes false e h = refl

  pub if_some-Passes :
      {A : Type 0} (o : Option A) (f : A → Check E) (P : A → Type 0)
      → ((a : A) → Passes (f a) → P a)
      → Passes (if_some o f)
      → IfSome o P
  if_some-Passes none f P k h = tt
  if_some-Passes (some a) f P k h = k a h

  pub each-Passes :
      {A : Type 0} (xs : List A) (f : A → Check E) (P : A → Type 0)
      → ((a : A) → Passes (f a) → P a)
      → Passes (each xs f)
      → All P xs
  each-Passes [] f P k h = tt
  each-Passes (x ∷ xs) f P k h =
      let both = then-Passes (f x) (each xs f) h in (k x both.0, each-Passes xs f P k both.1)

pub map_fail-Passes : {E F : Type 0} (f : E → F) (c : Check E) → Passes (map_fail f c) → Passes c
map_fail-Passes f pass h = refl
map_fail-Passes f (fail e) h = cc
