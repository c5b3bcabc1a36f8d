-- ===== src/Common/Results.antt =====
-- Errors as values. `Outcome` adds Go's panics.
use mathlib.Core.Path.{◌≡◌, refl}
use kuperator.Common.Texts.{Text}

pub data Error : Type 0 where
  -- An error of the cluster's API, by its kind.
  not_found conflict other_api : Error
  -- An error of the local store, and of strconv.ParseInt.
  store_error parse_error : Error
  -- An error of a quota or a selector that cannot be read, and of an HTTP request.
  invalid_value http_error : Error
  -- The errors that the code makes up.
  not_warmed_up no_poll_config not_controlled in_deletion : Error
  invalid_label missing_label : Text → Error
  type_taken type_exists : Text → Error

pub data Result {ℓ} (A : Type ℓ) : Type ℓ where
  ok : A → Result A
  err : Error → Result A

infixl 5 ◌>>=◌
abbrev pub ◌>>=◌ {ℓ κ} : {A : Type ℓ} {B : Type κ} → Result A → (A → Result B) → Result B
ok a >>= f = f a
err e >>= f = err e

pub data Outcome {ℓ} (A : Type ℓ) : Type ℓ where
  returns : A → Outcome A
  panics : Outcome A

pub bind-ok {ℓ κ} :
    {A : Type ℓ} {B : Type κ} (r : Result A) (f : A → Result B) (b : B)
    → (r >>= f) ≡ ok b
    → (a : A) × (r ≡ ok a) × (f a ≡ ok b)
bind-ok (ok a) f b e = (a, refl, e)
bind-ok (err x) f b e = cc

-- What the first result and the step keep, the second result keeps.
pub bind-keeps {ℓ κ} :
    {A : Type ℓ} {B : Type κ} (P : Result A → Type 0) (Q : Result B → Type 0) (f : A → Result B)
    (r : Result A)
    → ((e : Error) → Q (err e))
    → ((a : A) → P (ok a) → Q (f a))
    → P r
    → Q (r >>= f)
bind-keeps P Q f (ok a) failed step p = step a p
bind-keeps P Q f (err e) failed step p = failed e
