-- ===== src/Prelude/Tables.antt =====
-- SQL tables as lists of rows in insertion order. A row type with a primary key is an instance
-- of `Keyed`; `find`, `update` and `insert` are SELECT, UPDATE and INSERT by that key.
use Prim.Native.Nat.{ℕ, ◌+◌}
use mathlib.Core.Path.{◌≡◌, refl, subst}
use mathlib.Core.Logic.{inl, inr}
use mathlib.Core.Bool.{Bool, false, ◌||◌}
use mathlib.Core.Option.{Option, none, some}
use mathlib.Core.Option
use mathlib.Core.List.{List, [], ◌∷◌, ◌++◌}
use native.Mathlib.Omega.{arith}
use nyanya_agent.Prelude.Tests.{◌==◌, leb, if◌then◌else◌, is_some, Bool-cases}
use nyanya_agent.Prelude.Results.{Result, ok, err, integrity_error}

pub record Keyed {ℓ} (R : Type ℓ) : Type ℓ where
  pub key : R → ℕ

abbrev pub key_of {ℓ} : {R : Type ℓ} ⦃k : Keyed R⦄ → R → ℕ
key_of ⦃k⦄ = k.key

module _ {ℓ} {R : Type ℓ} where
  -- UPDATE … SET f WHERE p
  unfoldable pub update_where : (R → Bool) → (R → R) → List R → List R
  update_where p f [] = []
  update_where p f (r ∷ rows) = (if p r then f r else r) ∷ update_where p f rows

  -- SELECT … WHERE p
  unfoldable pub select : (R → Bool) → List R → List R
  select p [] = []
  select p (r ∷ rows) = let rest = select p rows in if p r then r ∷ rest else rest

  -- SELECT 1 … WHERE p
  unfoldable pub any_row : (R → Bool) → List R → Bool
  any_row p [] = false
  any_row p (r ∷ rows) = p r || any_row p rows

  -- SELECT count(*) … WHERE p
  unfoldable pub count : (R → Bool) → List R → ℕ
  count p [] = 0
  count p (r ∷ rows) = (if p r then 1 else 0) + count p rows

  -- fetchone() on the rows WHERE p, in their order
  unfoldable pub first : (R → Bool) → List R → Option R
  first p [] = none
  first p (r ∷ rows) = let rest = first p rows in if p r then some r else rest

  -- SELECT … WHERE p ORDER BY f DESC LIMIT 1; of equal rows the first
  unfoldable pub latest : (R → ℕ) → (R → Bool) → List R → Option R
  latest f p [] = none
  latest f p (r ∷ rows) =
      let rest = latest f p rows in
      if p r
      then elim rest [ none ↦ some r | some x ↦ if leb (f x) (f r) then some r else some x ]
      else rest

module _ {ℓ} {R : Type ℓ} ⦃k : Keyed R⦄ where
  -- SELECT * … WHERE key = i
  unfoldable pub find : ℕ → List R → Option R
  find i [] = none
  find i (r ∷ rows) = let rest = find i rows in if k.key r == i then some r else rest

  -- UPDATE … SET f WHERE key = i
  unfoldable pub update : ℕ → (R → R) → List R → List R
  update i f [] = []
  update i f (r ∷ rows) = (if k.key r == i then f r else r) ∷ update i f rows

  -- INSERT: a row with that primary key already there raises IntegrityError.
  unfoldable pub insert : R → List R → Result (List R)
  insert r rows = if is_some (find (k.key r) rows) then err integrity_error else ok (rows ++ r ∷ [])

  pub find-append :
      (i : ℕ) (rows : List R) (r : R)
      → find i (rows ++ r ∷ [])
        ≡ (if is_some (find i rows) then find i rows else if k.key r == i then some r else none)
  unfolding find
  find-append i [] r = refl
  find-append i (x ∷ rows) r = ground (arith, find-append i rows r)

  pub find-update :
      (i j : ℕ) (f : R → R) (rows : List R)
      → ((r : R) → k.key (f r) ≡ k.key r)
      → find j (update i f rows) ≡ (if i == j then Option.map f (find j rows) else find j rows)
  unfolding find update
  find-update i j f [] h = ground arith
  find-update i j f (r ∷ rows) h = ground (arith, h r, find-update i j f rows h)

  -- UPDATE … SET f WHERE key = i AND p
  unfoldable pub update_if : ℕ → (R → Bool) → (R → R) → List R → List R
  unfolding update
  update_if i p f rows = update i (λ r. if p r then f r else r) rows

  -- Whether that statement changes its one row (`rowcount`).
  abbrev pub touches : ℕ → (R → Bool) → List R → Bool
  touches i p rows = elim (find i rows) [ none ↦ false | some r ↦ p r ]

  -- INSERT … ON CONFLICT(key) DO UPDATE
  unfoldable pub upsert : R → List R → List R
  upsert r rows =
      if is_some (find (k.key r) rows) then update (k.key r) (λ _. r) rows else rows ++ r ∷ []

  find-update_const :
      (i j : ℕ) (r : R) (rows : List R)
      → k.key r ≡ i
      → find j (update i (λ _. r) rows)
        ≡ (if i == j then Option.map (λ _. r) (find j rows) else find j rows)
  unfolding find update
  find-update_const i j r [] h = ground arith
  find-update_const i j r (x ∷ rows) h = ground (arith, find-update_const i j r rows h)

  pub find-upsert :
      (j : ℕ) (r : R) (rows : List R)
      → find j (upsert r rows) ≡ (if k.key r == j then some r else find j rows)
  unfolding upsert
  find-upsert j r rows =
      ground (arith, find-append j rows r, find-update_const (k.key r) j r rows refl)

  pub find-update_if :
      (i j : ℕ) (p : R → Bool) (f : R → R) (rows : List R)
      → ((r : R) → k.key (f r) ≡ k.key r)
      → find j (update_if i p f rows)
        ≡ (if i == j then Option.map (λ r. if p r then f r else r) (find j rows) else find j rows)
  unfolding update_if
  find-update_if i j p f rows h =
      find-update i j (λ r. if p r then f r else r) rows (λ r. ground (arith, h r))

-- Every row of a table satisfies P.
abbrev pub All {ℓ κ} : {R : Type ℓ} → (R → Type κ) → List R → Type κ
All P [] = Unit
All P (r ∷ rows) = P r × All P rows

module _ {ℓ κ} {R : Type ℓ} (P : R → Type κ) where
  pub All-append_one : (rows : List R) (r : R) → All P rows → P r → All P (rows ++ r ∷ [])
  All-append_one [] r h p = (p, tt)
  All-append_one (x ∷ rows) r h p = (h.0, All-append_one rows r h.1 p)

module _ {ℓ κ} {R : Type ℓ} ⦃k : Keyed R⦄ (P : R → Type κ) where
  pub All-update :
      (i : ℕ) (f : R → R) (rows : List R)
      → ((r : R) → P r → P (f r))
      → All P rows
      → All P (update i f rows)
  unfolding update
  All-update i f [] keep h = tt
  All-update i f (r ∷ rows) keep h =
      (choose (k.key r == i) (keep r h.0) h.0, All-update i f rows keep h.1)
    where
      choose : (b : Bool) → P (f r) → P r → P (if b then f r else r)
      choose Bool.true p q = p
      choose Bool.false p q = q

  pub All-insert :
      (r : R) (rows : List R) {rows' : List R}
      → All P rows
      → P r
      → insert r rows ≡ ok rows'
      → All P rows'
  unfolding insert
  All-insert r rows {rows'} h p e =
      let grown : rows ++ r ∷ [] ≡ rows' = ground arith in
      subst (All P) grown (All-append_one P rows r h p)

  pub All-find : (i : ℕ) (rows : List R) {r : R} → All P rows → find i rows ≡ some r → P r
  unfolding find
  All-find i [] h e = cc
  All-find i (x ∷ rows) {r} h e = elim (Bool-cases (k.key x == i)) [
    | inl here ↦ subst P (ground arith) h.0
    | inr there ↦ All-find i rows h.1 (ground arith)
  ]

module _ {ℓ} {R : Type ℓ} ⦃k : Keyed R⦄ where
  -- A successful INSERT is seen by its key, and changes no other row.
  pub find-insert :
      (i : ℕ) (r : R) (rows : List R) {rows' : List R}
      → insert r rows ≡ ok rows'
      → find i rows' ≡ (if k.key r == i then some r else find i rows)
  unfolding insert
  find-insert i r rows h = ground (arith, find-append i rows r)

module _ {ℓ} {R : Type ℓ} where
  -- ORDER BY f: a stable insertion sort, equal rows stay in insertion order.
  unfoldable pub insert_sorted : (R → R → Bool) → R → List R → List R
  insert_sorted before r [] = r ∷ []
  insert_sorted before r (x ∷ rows) =
      let rest = insert_sorted before r rows in if before x r then x ∷ rest else r ∷ x ∷ rows

  unfoldable pub order_by : (R → R → Bool) → List R → List R
  unfolding insert_sorted
  order_by before [] = []
  order_by before (r ∷ rows) = insert_sorted before r (order_by before rows)

  -- DELETE … WHERE p
  unfoldable pub delete_where : (R → Bool) → List R → List R
  delete_where p [] = []
  delete_where p (r ∷ rows) = let rest = delete_where p rows in if p r then rest else r ∷ rest
