-- ===== src/Prelude/Results.antt =====
-- Computations that may raise. A statement block under `with connect(...)` is a function
-- `Ledger → Result (A × Ledger)`: an exception rolls the transaction back, so it carries no state.
use mathlib.Core.Path.{◌≡◌, refl}
use mathlib.Core.Logic.{◌⊎◌, inl, inr}
use mathlib.Core.Bool.{Bool, true, false}
use mathlib.Core.Option.{Option, none, some}

-- What the code raises: `KeyError`, `ValueError` with its reason, `PermissionError`,
-- `SafeOperationError`, `RuntimeError`, and SQLite's `IntegrityError`.
pub data Error : Type 0 where
  key_error invalid_transition terminal_transition stale_execution : Error
  value_error permission_error safe_operation runtime_error integrity_error : Error
  approval_expired already_decided actor_mismatch : Error

pub data Result {ℓ} (V : Type ℓ) : Type ℓ where
  err : Error → Result V
  ok : V → Result V

-- The statement after one that may raise.
infixl 5 ◌>>=◌ ◌>>◌
abbrev pub ◌>>=◌ {ℓ κ} : {V : Type ℓ} {W : Type κ} → Result V → (V → Result W) → Result W
err raised >>= next = err raised
ok v >>= next = next v

-- `if b: raise e`
abbrev pub raise_if : Bool → Error → Result (Unit {0})
raise_if true e = err e
raise_if false e = ok tt

-- `if row is None: raise e`
abbrev pub require {ℓ} : {A : Type ℓ} → Option A → Error → Result A
require none e = err e
require (some a) e = ok a

abbrev pub ◌>>◌ {ℓ} : {W : Type ℓ} → Result (Unit {0}) → Result W → Result W
check >> next = check >>= λ u. next

-- A sequence that ends well has a first statement that did.
pub >>=-eq-ok {ℓ κ} :
    {V : Type ℓ} {W : Type κ} (r : Result V) (next : V → Result W) {w : W}
    → (r >>= next) ≡ ok w
    → (v : V) × (r ≡ ok v) × (next v ≡ ok w)
>>=-eq-ok (err raised) next ends = cc
>>=-eq-ok (ok v) next ends = (v, refl, ends)

pub Result-cases {ℓ} :
    {A : Type ℓ} (r : Result A) → ((a : A) × (r ≡ ok a)) ⊎ ((e : Error) × (r ≡ err e))
Result-cases (ok a) = inl (a, refl)
Result-cases (err e) = inr (e, refl)
