-- ===== src/Prelude/Result.antt =====
-- gRPC statuses, results, and code that mutates a state and may fail. What was written before an
-- error stays written, so the state comes back beside the error too.
use Prim.Native.String.{String}
use mathlib.Core.Option.{Option, none, some}

-- The codes of `tonic::Status` that the storage layer answers with.
pub data Code : Type 0 where
  not_found failed_precondition invalid_argument internal : Code

pub record Status : Type 0 where
  pub code : Code
  pub message : String

pub data Result {ℓ} (A : Type ℓ) : Type ℓ where
  ok : A → Result A
  err : Status → Result A

abbrev pub not_found_status : String → Status
not_found_status m = record { code = not_found; message = m }

abbrev pub failed_precondition_status : String → Status
failed_precondition_status m = record { code = failed_precondition; message = m }

abbrev pub invalid_argument_status : String → Status
invalid_argument_status m = record { code = invalid_argument; message = m }

abbrev pub internal_status : String → Status
internal_status m = record { code = internal; message = m }

abbrev pub Exec {ℓ} : Type ℓ → Type ℓ → Type ℓ
Exec S A = S → Result A × S

module _ {ℓ} {S A : Type ℓ} where
  abbrev pub pure : A → Exec S A
  pure a s = (ok a, s)

  abbrev pub raise : Status → Exec S A
  raise e s = (err e, s)

  abbrev pub lift : Result A → Exec S A
  lift r s = (r, s)

  abbrev pub gets : (S → A) → Exec S A
  gets f s = (ok (f s), s)

module _ {ℓ} {S A B : Type ℓ} where
  abbrev pub proceed : Result A → (A → Exec S B) → Exec S B
  proceed (ok a) f s = f a s
  proceed (err e) f s = (err e, s)

  infixl 10 ◌>>=◌ ◌>>◌
  unfoldable pub ◌>>=◌ : Exec S A → (A → Exec S B) → Exec S B
  ◌>>=◌ m f s = let (r, s') = m s in proceed r f s'

  abbrev pub ◌>>◌ : Exec S A → Exec S B → Exec S B
  m >> n = m >>= λ _. n

abbrev pub modify : {S : Type 0} → (S → S) → Exec S (Unit {0})
modify f s = (ok tt, f s)

-- `opt.ok_or_else(|| e)`.
abbrev pub ok_or {ℓ} : {A : Type ℓ} → Status → Option A → Result A
ok_or e none = err e
ok_or e (some a) = ok a
