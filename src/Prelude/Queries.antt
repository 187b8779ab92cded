-- ===== src/Prelude/Queries.antt =====
-- Lemmas on SELECT, ORDER BY, DELETE and count(*).
use Prim.Native.Nat.{ℕ, ◌+◌, ◌≤◌}
use mathlib.Core.Path.{◌≡◌, refl, subst}
use mathlib.Core.Logic.{◌⊎◌, inl, inr}
use mathlib.Core.Bool.{Bool, true, false}
use mathlib.Core.Option.{some}
use mathlib.Core.Option
use mathlib.Core.List.{List, [], ◌∷◌, ◌++◌}
use native.Mathlib.Omega.{arith}
use nyanya_agent.Prelude.Tests.{◌==◌, if◌then◌else◌, Bool-cases}
use nyanya_agent.Prelude.Tables.{
  Keyed, update_where, select, any_row, count, first, find, insert_sorted, order_by, delete_where,
  All, update, update_if,
}

-- A row of a table, whatever its key.
abbrev pub IsRow : {R : Type 0} → List R → R → Type 0
IsRow [] r = ⊥
IsRow (x ∷ rows) r = (x ≡ r) ⊎ IsRow rows r

module _ {ℓ} {R : Type ℓ} where
  pub All-map {κ μ} :
      (P : R → Type κ) (Q : R → Type μ) (rows : List R)
      → ((r : R) → P r → Q r)
      → All P rows
      → All Q rows
  All-map P Q [] f all = tt
  All-map P Q (x ∷ rows) f all = (f x all.0, All-map P Q rows f all.1)

  pub All-both {κ μ} :
      (P : R → Type κ) (Q : R → Type μ) (rows : List R)
      → All P rows
      → All Q rows
      → All (λ r. P r × Q r) rows
  All-both P Q [] p q = tt
  All-both P Q (x ∷ rows) p q = ((p.0, q.0), All-both P Q rows p.1 q.1)

  pub All-selected {κ} :
      (P : R → Type κ) (p : R → Bool) (rows : List R) → All P rows → All P (select p rows)
  unfolding select
  All-selected P p [] all = tt
  All-selected P p (r ∷ rows) all = elim (Bool-cases (p r)) [
    | inl here ↦ rw here (all.0, All-selected P p rows all.1)
    | inr there ↦ rw there (All-selected P p rows all.1)
  ]

  pub first-holds : (p : R → Bool) (rows : List R) {r : R} → first p rows ≡ some r → p r ≡ true
  unfolding first
  first-holds p [] h = cc
  first-holds p (x ∷ rows) h = elim (Bool-cases (p x)) [
    | inl here ↦ ground arith
    | inr there ↦ first-holds p rows (ground arith)
  ]

  pub All-first {κ} :
      (P : R → Type κ) (p : R → Bool) (rows : List R) {r : R}
      → All P rows
      → first p rows ≡ some r
      → P r
  unfolding first
  All-first P p [] all h = cc
  All-first P p (x ∷ rows) {r} all h = elim (Bool-cases (p x)) [
    | inl here ↦ subst P (ground arith) all.0
    | inr there ↦ All-first P p rows all.1 (ground arith)
  ]

  pub All-select : (p : R → Bool) (rows : List R) → All (λ r. p r ≡ true) (select p rows)
  unfolding select
  All-select p [] = tt
  All-select p (r ∷ rows) = elim (Bool-cases (p r)) [
    | inl here ↦ rw here (here, All-select p rows)
    | inr there ↦ rw there (All-select p rows)
  ]

  pub All-insert_sorted {κ} :
      (P : R → Type κ) (before : R → R → Bool) (r : R) (rows : List R)
      → P r
      → All P rows
      → All P (insert_sorted before r rows)
  unfolding insert_sorted
  All-insert_sorted P before r [] p all = (p, tt)
  All-insert_sorted P before r (x ∷ rows) p all = elim (Bool-cases (before x r)) [
    | inl later ↦ rw later (all.0, All-insert_sorted P before r rows p all.1)
    | inr here ↦ rw here (p, all)
  ]

  pub All-order_by {κ} :
      (P : R → Type κ) (before : R → R → Bool) (rows : List R)
      → All P rows
      → All P (order_by before rows)
  unfolding order_by
  All-order_by P before [] all = tt
  All-order_by P before (r ∷ rows) all =
      All-insert_sorted P before r (order_by before rows) all.0 (All-order_by P before rows all.1)

  pub count-append :
      (p : R → Bool) (rows : List R) (r : R)
      → count p (rows ++ r ∷ []) ≡ count p rows + (if p r then 1 else 0)
  unfolding count
  count-append p [] r = omega arith
  count-append p (x ∷ rows) r = omega (arith, count-append p rows r)

  pub count-delete_where :
      (p q : R → Bool) (rows : List R) → count p (delete_where q rows) ≤ count p rows
  unfolding count delete_where
  count-delete_where p q [] = omega arith
  count-delete_where p q (x ∷ rows) = ground (arith, count-delete_where p q rows)

  pub count-same :
      (p q : R → Bool) (rows : List R) → ((r : R) → p r ≡ q r) → count p rows ≡ count q rows
  unfolding count
  count-same p q [] same = refl
  count-same p q (x ∷ rows) same = ground (arith, same x, count-same p q rows same)

module _ {ℓ} {R : Type ℓ} ⦃k : Keyed R⦄ where
  pub find-key : (i : ℕ) (rows : List R) {r : R} → find i rows ≡ some r → k.key r ≡ i
  unfolding find
  find-key i [] h = cc
  find-key i (x ∷ rows) h = elim (Bool-cases (k.key x == i)) [
    | inl here ↦ ground arith
    | inr there ↦ find-key i rows (ground arith)
  ]

  pub any_row-find :
      (p : R → Bool) (i : ℕ) (rows : List R) {r : R}
      → any_row p rows ≡ false
      → find i rows ≡ some r
      → p r ≡ false
  unfolding any_row find
  any_row-find p i [] h there = cc
  any_row-find p i (x ∷ rows) h there = elim (Bool-cases (k.key x == i)) [
    | inl here ↦ ground arith
    | inr later ↦ any_row-find p i rows (ground arith) (ground arith)
  ]

  pub find-update_where :
      (i : ℕ) (p : R → Bool) (f : R → R) (rows : List R)
      → ((r : R) → k.key (f r) ≡ k.key r)
      → find i (update_where p f rows) ≡ Option.map (λ r. if p r then f r else r) (find i rows)
  unfolding find update_where
  find-update_where i p f [] keep = refl
  find-update_where i p f (r ∷ rows) keep =
      ground (arith, keep r, find-update_where i p f rows keep)

  pub find-delete_where :
      (q : R → Bool) (i : ℕ) (rows : List R)
      → ((r : R) → k.key r ≡ i → q r ≡ false)
      → find i (delete_where q rows) ≡ find i rows
  unfolding find delete_where
  find-delete_where q i [] keep = refl
  find-delete_where q i (x ∷ rows) keep = ground (arith, keep x, find-delete_where q i rows keep)

  pub count-update_if :
      (p q : R → Bool) (i : ℕ) (f : R → R) (rows : List R)
      → ((r : R) → p (f r) ≡ true → p r ≡ true)
      → count p (update_if i q f rows) ≤ count p rows
  unfolding count update_if update
  count-update_if p q i f [] h = omega arith
  count-update_if p q i f (x ∷ rows) h =
      ground (arith, h x, count-update_if p q i f rows h, Bool-cases (p x), Bool-cases (p (f x)))

module _ {R : Type 0} where
  pub All-IsRow : (rows : List R) → All (IsRow rows) rows
  All-IsRow [] = tt
  All-IsRow (x ∷ rows) =
      (inl refl, All-map (IsRow rows) (IsRow (x ∷ rows)) rows (λ r h. inr h) (All-IsRow rows))
