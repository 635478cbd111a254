-- ===== src/Base/Errors.antt =====
-- Go's `error` values and the results of calls that may fail. Of an error the operator reads its
-- message and, through `apierrors.IsNotFound` and `apierrors.IsConflict`, its reason.
use mathlib.Core.Path.{◌≡◌, refl}
use mathlib.Core.Logic.{◌⊎◌, inl, inr}
use mathlib.Core.Bool.{Bool, true, false}
use mathlib.Core.List.{◌++◌}
use proxmox_operator.Base.Text.{Text}

pub data Reason : Type 0 where
  not_found conflict other_reason : Reason

pub record Error : Type 0 where
  pub reason : Reason
  pub message : Text

pub data Result {ℓ} (A : Type ℓ) : Type ℓ where
  ok : A → Result A
  err : Error → Result A

pub Result-cases {ℓ} :
    {A : Type ℓ} (r : Result A) → ((e : Error) × (r ≡ err e)) ⊎ ((a : A) × (r ≡ ok a))
Result-cases (err e) = inl (e, refl)
Result-cases (ok a) = inr (a, refl)

-- `apierrors.IsNotFound(err)`
abbrev pub is_not_found : Error → Bool
is_not_found e = elim e.reason [ Reason.not_found ↦ true | _ ↦ false ]

-- `apierrors.IsConflict(err)`
abbrev pub is_conflict : Error → Bool
is_conflict e = elim e.reason [ Reason.conflict ↦ true | _ ↦ false ]

-- `fmt.Errorf(message)`
abbrev pub errorf : Text → Error
errorf message = record { reason = other_reason; message = message }

-- `fmt.Errorf(prefix + "%w", e)`: the reason is that of the wrapped error.
abbrev pub wrap : Text → Error → Error
wrap prefix e = record { reason = e.reason; message = prefix ++ e.message }

infixl 5 ◌>>=◌
abbrev pub ◌>>=◌ {ℓ κ} : {A : Type ℓ} {B : Type κ} → Result A → (A → Result B) → Result B
ok a >>= f = f a
err e >>= f = err e
