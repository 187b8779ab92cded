-- ===== src/Prelude/Orders.antt =====
-- Ordered tables: what ORDER BY keeps, and what the first row of an ordered table is.
use mathlib.Core.Path.{◌≡◌, refl, subst}
use mathlib.Core.Logic.{inl, inr}
use mathlib.Core.Bool.{Bool, true, false, ◌&&◌, ◌||◌}
use mathlib.Core.Option.{some}
use mathlib.Core.List.{List, [], ◌∷◌}
use native.Mathlib.Omega.{arith}
use nyanya_agent.Prelude.Tests.{Bool-cases}
use nyanya_agent.Prelude.Tables.{select, any_row, first, insert_sorted, order_by, All}
use nyanya_agent.Prelude.Queries.{All-insert_sorted}

module _ {ℓ} {R : Type ℓ} where
  pub any_row-select :
      (p q : R → Bool) (rows : List R) → any_row p (select q rows) ≡ any_row (λ r. q r && p r) rows
  unfolding any_row select
  any_row-select p q [] = refl
  any_row-select p q (x ∷ rows) = ground (arith, any_row-select p q rows)

  any_row-insert_sorted :
      (p : R → Bool) (before : R → R → Bool) (r : R) (rows : List R)
      → any_row p (insert_sorted before r rows) ≡ (p r || any_row p rows)
  unfolding any_row insert_sorted
  any_row-insert_sorted p before r [] = refl
  any_row-insert_sorted p before r (x ∷ rows) =
      ground (arith, any_row-insert_sorted p before r rows)

  pub any_row-order_by :
      (p : R → Bool) (before : R → R → Bool) (rows : List R)
      → any_row p (order_by before rows) ≡ any_row p rows
  unfolding any_row order_by
  any_row-order_by p before [] = refl
  any_row-order_by p before (x ∷ rows) = ground (
    arith,
    any_row-insert_sorted p before x (order_by before rows),
    any_row-order_by p before rows,
  )

  pub first-found :
      (p : R → Bool) (rows : List R) → any_row p rows ≡ true → (r : R) × (first p rows ≡ some r)
  unfolding any_row first
  first-found p [] h = cc
  first-found p (x ∷ rows) h = elim (Bool-cases (p x)) [
    | inl here ↦ (x, ground (arith, here))
    | inr there ↦
        let (r, found) = first-found p rows (ground (arith, h, there)) in
        (r, ground (arith, there, found))
  ]

  All-weaken {κ} :
      (p : R → Bool) (P : R → Type κ) (rows : List R)
      → All P rows
      → All (λ r. p r ≡ true → P r) rows
  All-weaken p P [] all = tt
  All-weaken p P (x ∷ rows) all = ((λ q. all.0), All-weaken p P rows all.1)

  pub All-unselect {κ} :
      (P : R → Type κ) (q : R → Bool) (rows : List R)
      → All P (select q rows)
      → All (λ r. q r ≡ true → P r) rows
  unfolding select
  All-unselect P q [] all = tt
  All-unselect P q (x ∷ rows) all = elim (Bool-cases (q x)) [
    | inl here ↦
        let both : All P (x ∷ select q rows) =
          subst (All P) {y = x ∷ select q rows} (ground (arith, here)) all in
        ((λ h. both.0), All-unselect P q rows both.1)
    | inr there ↦ (
      (λ h. cc),
      All-unselect P q rows (subst (All P) {y = select q rows} (ground (arith, there)) all),
    )
  ]

  uninsert {κ} :
      (P : R → Type κ) (before : R → R → Bool) (r : R) (rows : List R)
      → All P (insert_sorted before r rows)
      → P r × All P rows
  unfolding insert_sorted
  uninsert P before r [] all = all
  uninsert P before r (x ∷ rows) all = elim (Bool-cases (before x r)) [
    | inl later ↦
        let both : All P (x ∷ insert_sorted before r rows) =
          subst (All P) {y = x ∷ insert_sorted before r rows} (ground (arith, later)) all in
        let (here, rest) = uninsert P before r rows both.1 in (here, (both.0, rest))
    | inr here ↦ subst (All P) {y = r ∷ x ∷ rows} (ground (arith, here)) all
  ]

  pub All-unorder {κ} :
      (P : R → Type κ) (before : R → R → Bool) (rows : List R)
      → All P (order_by before rows)
      → All P rows
  unfolding order_by
  All-unorder P before [] all = tt
  All-unorder P before (r ∷ rows) all =
      let (here, rest) = uninsert P before r (order_by before rows) all in
      (here, All-unorder P before rows rest)

  -- No row comes before an earlier one.
  abbrev pub IsOrdered : (R → R → Bool) → List R → Type ℓ
  IsOrdered before [] = Unit
  IsOrdered before (r ∷ rows) = All (λ x. before x r ≡ false) rows × IsOrdered before rows

  -- A strict order whose incomparable rows are alike.
  pub record IsRanking (before : R → R → Bool) : Type ℓ where
    pub asymmetric : (a b : R) → before a b ≡ true → before b a ≡ false
    pub cotransitive : (a b c : R) → before a b ≡ false → before b c ≡ false → before a c ≡ false

  module _ (before : R → R → Bool) (ranks : IsRanking before) where
    All-before :
        (x r : R) (rows : List R)
        → before x r ≡ false
        → All (λ y. before y x ≡ false) rows
        → All (λ y. before y r ≡ false) rows
    All-before x r [] h all = tt
    All-before x r (y ∷ rows) h all =
        (ranks.cotransitive y x r all.0 h, All-before x r rows h all.1)

    insert_sorted-IsOrdered :
        (r : R) (rows : List R)
        → IsOrdered before rows
        → IsOrdered before (insert_sorted before r rows)
    unfolding insert_sorted
    insert_sorted-IsOrdered r [] h = (tt, tt)
    insert_sorted-IsOrdered r (x ∷ rows) h = elim (Bool-cases (before x r)) [
      | inl later ↦ rw later (
        All-insert_sorted (λ y. before y x ≡ false) before r rows (ranks.asymmetric x r later) h.0,
        insert_sorted-IsOrdered r rows h.1,
      )
      | inr here ↦ rw here ((here, All-before x r rows here h.0), h)
    ]

    pub order_by-IsOrdered : (rows : List R) → IsOrdered before (order_by before rows)
    unfolding order_by
    order_by-IsOrdered [] = tt
    order_by-IsOrdered (r ∷ rows) =
        insert_sorted-IsOrdered r (order_by before rows) (order_by-IsOrdered rows)

    irreflexive : (x : R) → before x x ≡ false
    irreflexive x = elim (Bool-cases (before x x)) [
      | inl self ↦ ranks.asymmetric x x self
      | inr apart ↦ apart
    ]

    -- What `first` finds in an ordered table, none that satisfies p comes before.
    pub first-IsOrdered :
        (p : R → Bool) (rows : List R) {r : R}
        → IsOrdered before rows
        → first p rows ≡ some r
        → All (λ x. p x ≡ true → before x r ≡ false) rows
    unfolding first
    first-IsOrdered p [] h found = tt
    first-IsOrdered p (x ∷ rows) {r} h found = elim (Bool-cases (p x)) [
      | inl here ↦
          let same : x ≡ r = ground (arith, found, here) in
          subst (λ z. All (λ y. p y ≡ true → before y z ≡ false) (x ∷ rows)) same
            ((λ q. irreflexive x), All-weaken p (λ y. before y x ≡ false) rows h.0)
      | inr there ↦ ((λ q. cc), first-IsOrdered p rows h.1 (ground (arith, found, there)))
    ]
