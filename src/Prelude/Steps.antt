-- ===== src/Prelude/Steps.antt =====
-- Sequences of transactions: what has been committed stays when a later step raises.
use nyanya_agent.Prelude.{
  ◌≡◌, ◌≢◌, refl, Bool, true, false, Option, none, some, ◌⊎◌, inl, inr, Result, Result-cases,
  Option-cases, arith, ok, err, Error,
}

abbrev pub Run {ℓ} : Type 0 → Type ℓ → Type ℓ
Run S A = S → Result A × S

unfoldable pub proceed {ℓ κ} :
    {S : Type 0} {A : Type ℓ} {B : Type κ} → Result A × S → (A → Run S B) → Result B × S
proceed (ok a, l) f = f a l
proceed (err e, l) f = (err e, l)

infixl 5 ◌>>=◌ ◌>>◌
unfoldable pub ◌>>=◌ {ℓ κ} :
    {S : Type 0} {A : Type ℓ} {B : Type κ} → Run S A → (A → Run S B) → Run S B
unfolding proceed
◌>>=◌ m f l = proceed (m l) f

unfoldable pub ◌>>◌ {ℓ κ} : {S : Type 0} {A : Type ℓ} {B : Type κ} → Run S A → Run S B → Run S B
unfolding ◌>>=◌
m >> n = m >>= λ a. n

unfoldable pub return {ℓ} : {S : Type 0} {A : Type ℓ} → A → Run S A
return a l = (ok a, l)

unfoldable pub raise {ℓ} : {S : Type 0} {A : Type ℓ} → Error → Run S A
raise e l = (err e, l)

-- One transaction: an error rolls it back.
unfoldable pub transact : {S : Type 0} → (S → Result S) → Run S (Unit {0})
transact f l = elim (f l) [ err e ↦ (err e, l) | ok l' ↦ (ok tt, l') ]

-- `row = SELECT …`, then `if row is None: raise e`
unfoldable pub read {ℓ} : {S : Type 0} {A : Type ℓ} → (S → Option A) → Error → Run S A
read query e l = elim (query l) [ none ↦ (err e, l) | some a ↦ (ok a, l) ]

unfoldable pub require_that : {S : Type 0} → Bool → Error → Run S (Unit {0})
require_that true e l = (ok tt, l)
require_that false e l = (err e, l)

-- `try: m except Exception as exc: handler`
unfoldable pub recovered {ℓ} :
    {S : Type 0} {A : Type ℓ} → Result A × S → (Error → Run S A) → Result A × S
recovered (ok a, l) handler = (ok a, l)
recovered (err e, l) handler = handler e l

unfoldable pub try_except {ℓ} : {S : Type 0} {A : Type ℓ} → Run S A → (Error → Run S A) → Run S A
unfolding recovered
try_except m handler l = recovered (m l) handler

-- A sequence that ends well has a first part that did.
pub >>=-runs {ℓ κ} :
    {S : Type 0} {A : Type ℓ} {B : Type κ} (m : Run S A) (f : A → Run S B) (l : S) {b : B} {l' : S}
    → (m >>= f) l ≡ (ok b, l')
    → (a : A) × (l1 : S) × (m l ≡ (ok a, l1)) × (f a l1 ≡ (ok b, l'))
unfolding ◌>>=◌
>>=-runs {S = S} {A = A} {B = B} m f l {b} {l'} = split (m l) refl
  where
    split :
        (r : Result A × S)
        → m l ≡ r
        → proceed r f ≡ (ok b, l')
        → (a : A) × (l1 : S) × (m l ≡ (ok a, l1)) × (f a l1 ≡ (ok b, l'))
    split (ok a, l1) first h = (a, l1, first, h)
    split (err e, l1) first h = cc

pub >>-runs {ℓ κ} :
    {S : Type 0} {A : Type ℓ} {B : Type κ} (m : Run S A) (n : Run S B) (l : S) {b : B} {l' : S}
    → (m >> n) l ≡ (ok b, l')
    → (a : A) × (l1 : S) × (m l ≡ (ok a, l1)) × (n l1 ≡ (ok b, l'))
unfolding ◌>>◌
>>-runs m n l h = >>=-runs m (λ a. n) l h

pub read-runs {ℓ κ} :
    {S : Type 0} {A : Type ℓ} {B : Type κ} (query : S → Option A) (e : Error) (f : A → Run S B)
    (l : S) {b : B} {l' : S}
    → (read query e >>= f) l ≡ (ok b, l')
    → (a : A) × (query l ≡ some a) × (f a l ≡ (ok b, l'))
unfolding read ◌>>=◌ proceed
read-runs query e f l h = elim (Option-cases (query l)) [
  | inl missing ↦ absurd (ground (arith, missing))
  | inr (a, there) ↦ (a, there, ground (arith, there))
]

pub transact-runs :
    {S : Type 0} (f : S → Result S) (l : S) {l' : S} → transact f l ≡ (ok tt, l') → f l ≡ ok l'
unfolding transact
transact-runs f l h = elim (Result-cases (f l)) [
  | inl (l1, done) ↦ ground (arith, done)
  | inr (e, refused) ↦ absurd (ground (arith, refused))
]

-- A handler that always raises catches nothing for good.
pub try_except-runs {ℓ} :
    {S : Type 0} {A : Type ℓ} (m : Run S A) (handler : Error → Run S A) (l : S) {a : A} {l' : S}
    → ((e : Error) (l1 : S) → handler e l1 ≢ (ok a, l'))
    → try_except m handler l ≡ (ok a, l')
    → m l ≡ (ok a, l')
unfolding try_except
try_except-runs {S = S} {A = A} m handler l {a} {l'} raises = split (m l) refl
  where
    split : (r : Result A × S) → m l ≡ r → recovered r handler ≡ (ok a, l') → m l ≡ (ok a, l')
    split (ok b, l1) first h = (unfold recovered in ground (arith, first, h))
    split (err e, l1) first h = absurd (raises e l1 (unfold recovered in h))

pub >>-raises {ℓ κ} :
    {S : Type 0} {A : Type ℓ} {B : Type κ} (m : Run S A) (n : Run S B) (l : S) {e : Error} {l' : S}
    → (m >> n) l ≡ (err e, l')
    → (m l ≡ (err e, l')) ⊎ ((a : A) × (l1 : S) × (m l ≡ (ok a, l1)) × (n l1 ≡ (err e, l')))
unfolding ◌>>◌ ◌>>=◌
>>-raises {S = S} {A = A} {B = B} m n l {e} {l'} = split (m l) refl
  where
    split :
        (r : Result A × S)
        → m l ≡ r
        → proceed r (λ a. n) ≡ (err e, l')
        → (m l ≡ (err e, l')) ⊎ ((a : A) × (l1 : S) × (m l ≡ (ok a, l1)) × (n l1 ≡ (err e, l')))
    split (ok a, l1) first h = inr (a, l1, first, (unfold proceed in h))
    split (err x, l1) first h = inl (unfold proceed in ground (arith, first, h))

pub try_except-raises {ℓ} :
    {S : Type 0} {A : Type ℓ} (m : Run S A) (handler : Error → Run S A) (l : S) {e : Error} {l' : S}
    → try_except m handler l ≡ (err e, l')
    → (x : Error) × (l1 : S) × (m l ≡ (err x, l1)) × (handler x l1 ≡ (err e, l'))
unfolding try_except
try_except-raises {S = S} {A = A} m handler l {e} {l'} = split (m l) refl
  where
    split :
        (r : Result A × S)
        → m l ≡ r
        → recovered r handler ≡ (err e, l')
        → (x : Error) × (l1 : S) × (m l ≡ (err x, l1)) × (handler x l1 ≡ (err e, l'))
    split (ok b, l1) first h = absurd (unfold recovered in ground (arith, h))
    split (err x, l1) first h = (x, l1, first, (unfold recovered in h))
