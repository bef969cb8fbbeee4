-- ===== src/Base/Errors.antt =====
-- Exceptions: the fixed codes of `PolicyError`, and any other exception.
use mathlib.Core.Path.{◌≡◌, refl}
use mathlib.Core.Bool.{Bool}
use mathlib.Core.Option.{Option, none, some}

pub data Code : Type 0 where
  validation_failed trust_invalid forbidden identity_unsafe assertion_expired : Code
  replay_conflict revision_conflict busy rate_limited : Code
  store_unavailable commit_unknown unsupported_schema : Code

-- `policy code uncertain` is `PolicyError(code, uncertain=uncertain)`; `exception` is any other
-- exception (a missing key, an overflow of the clock arithmetic, a failed system call).
pub data Error : Type 0 where
  policy : Code → Bool → Error
  exception : Error

-- How a call ends: it raises, or it returns.
pub data Result {ℓ} (A : Type ℓ) : Type ℓ where
  err : Error → Result A
  ok : A → Result A

-- What follows a call that returned.
abbrev pub ◌>>=◌ {ℓ κ} : {A : Type ℓ} {B : Type κ} → Result A → (A → Result B) → Result B
err raised >>= rest = err raised
ok value >>= rest = rest value

abbrev pub ◌>>◌ {ℓ κ} : {A : Type ℓ} {B : Type κ} → Result A → Result B → Result B
call >> rest = call >>= λ _. rest

infixl 5 ◌>>=◌ ◌>>◌
-- `d[k]` on a dictionary: a missing key raises `KeyError`.
abbrev pub or_raise {ℓ} : {A : Type ℓ} → Option A → Result A
or_raise none = err exception
or_raise (some a) = ok a

-- `try: m` with a handler that does not look at the exception.
abbrev pub try_else {ℓ κ} : {A : Type ℓ} {B : Type κ} → Result A → B → B → B
try_else (ok a) x y = x
try_else (err e) x y = y

pub try_else_intro {ℓ κ μ} :
    {A : Type ℓ} {B : Type κ} (P : B → Type μ) (m : Result A) (x y : B)
    → ((a : A) → m ≡ ok a → P x)
    → P y
    → P (try_else m x y)
try_else_intro P (ok a) x y h k = h a refl
try_else_intro P (err e) x y h k = k

-- A chain that returns has a first call that returns.
pub >>=-eq-ok {ℓ κ} :
    {A : Type ℓ} {B : Type κ} (call : Result A) (rest : A → Result B) {result : B}
    → (call >>= rest) ≡ ok result
    → (value : A) × (call ≡ ok value) × (rest value ≡ ok result)
>>=-eq-ok (err raised) rest returned = cc
>>=-eq-ok (ok value) rest returned = (value, refl, returned)
