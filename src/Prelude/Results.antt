-- ===== src/Prelude/Results.antt =====
-- Errors as values, and the results of fallible functions.
use Prim.Native.String.{String}
use mathlib.Core.Path.{◌≡◌, refl}
use mathlib.Core.Logic.{◌⊎◌, inl, inr}

-- `not_exist` is the error of package os for a missing file, `sql_error` one of the database,
-- `context_done` that of a context which is cancelled or past its deadline, `wrapped` is fmt.Errorf with %w and
-- `plain` is fmt.Errorf without it.
pub data Err : Type 0 where
  not_exist : Err
  os_error : Err
  json_error : Err
  too_long : Err
  sql_error : Err
  context_done : Err
  wrapped : String → Err → Err
  plain : String → Err

pub data Result {ℓ} (A : Type ℓ) : Type ℓ where
  ok : A → Result A
  err : Err → Result A

pub Result-cases {ℓ} :
    {A : Type ℓ} (r : Result A) → ((a : A) × (r ≡ ok a)) ⊎ ((e : Err) × (r ≡ err e))
Result-cases (ok a) = inl (a, refl)
Result-cases (err e) = inr (e, refl)
