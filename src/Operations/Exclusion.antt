-- ===== src/Operations/Exclusion.antt =====
-- About applies and other live claims in one workspace (src/nyanya_agent/operation_store.py).
use native.Mathlib.Decide.{ℕ_discrete}
use nyanya_agent.Prelude.{
  sym, ◌∙◌, ℕ, ◌+◌, ◌≡◌, ◌≢◌, refl, false, Option, none, some, inl, inr, arith, if◌then◌else◌,
  Option-cases, ok, find, insert, any_row, delete_where, find-update, find-append, find-key,
  any_row-find, find-delete_where,
}
use nyanya_agent.Ledger.{
  Ledger, OperationKind, Claim, Operation, claim_keyed, operation_keyed, seconds,
}
use nyanya_agent.Effects.{is_apply}
use nyanya_agent.WorkQueue.{ClaimRecord, claim_row}
use nyanya_agent.Operations.Dispatch.{
  claim, startable, conflicts, held_conflict, released_of, count_attempt,
}
use nyanya_agent.Operations.Slots.{IsClaimed, claim-IsClaimed, chosen-startable}

-- The operation that holds a live claim for task `i`.
abbrev pub held : Option Claim → Option Operation → Option Operation
held none o = none
held (some c) o = if c.released then none else o

abbrev pub live_operation : ℕ → Ledger → Option Operation
live_operation i l = held (find i l.claims) (find i l.operations)

-- Two operations that may run together: in one workspace both only read.
abbrev pub Apart : Operation → Operation → Type 0
Apart o o' =
    o.spec.workspace ≡ o'.spec.workspace
    → (o.spec.kind ≡ OperationKind.request) × (o'.spec.kind ≡ OperationKind.request)

-- The operations of two live claims may run together.
abbrev pub IsExclusive : Ledger → Type 0
IsExclusive l =
    (i j : ℕ) (o o' : Operation)
    → i ≢ j
    → live_operation i l ≡ some o
    → live_operation j l ≡ some o'
    → Apart o o'

Apart-of : (o o' : Operation) → conflicts o o' ≡ false → Apart o o'
unfolding conflicts is_apply
Apart-of o o' free same = (ground arith, ground arith)

conflicts-counted : (o o' : Operation) → conflicts (count_attempt o) o' ≡ conflicts o o'
unfolding conflicts count_attempt
conflicts-counted o o' = refl

module _ (execution adapter generation slots now : ℕ) (l : Ledger) {r : ClaimRecord} {l' : Ledger}
    (d : IsClaimed execution adapter generation slots now l r l') where
  other_claim : (i : ℕ) → i ≢ d.task.id → find i l'.claims ≡ find i l.claims
  unfolding released_of insert claim_row
  other_claim i other =
      let row = claim_row d.task.id generation d.task.requested_by execution (now + seconds 30) in
      ground (
        arith,
        d.claims,
        find-append i (delete_where (released_of d.task.id) l.claims) row,
        find-delete_where (released_of d.task.id) i l.claims (λ c same. ground arith),
      )

  other_live : (i : ℕ) → i ≢ d.task.id → live_operation i l' ≡ live_operation i l
  unfolding count_attempt
  other_live i other = ground (
    arith,
    other_claim i other,
    d.operations,
    find-update d.task.id i count_attempt l.operations (λ o. refl),
  )

  own_live :
      (o : Operation)
      → live_operation d.task.id l' ≡ some o
      → (b : Operation) × (find d.task.id l.operations ≡ some b) × (o ≡ count_attempt b)
  unfolding count_attempt
  own_live o h = elim (Option-cases (find d.task.id l.operations)) [
    | inl missing ↦ absurd (
        ground (
          arith,
          h,
          missing,
          d.operations,
          find-update d.task.id d.task.id count_attempt l.operations (λ o. refl),
        ))
    | inr (b, there) ↦ (
      b,
      there,
      ground (
        arith,
        h,
        there,
        d.operations,
        find-update d.task.id d.task.id count_attempt l.operations (λ o. refl),
      ),
    )
  ]

  no_conflict :
      (b o' : Operation) (j : ℕ)
      → find d.task.id l.operations ≡ some b
      → live_operation j l ≡ some o'
      → conflicts b o' ≡ false
  no_conflict b o' j there live = elim (Option-cases (find j l.claims)) [
    | inl missing ↦ absurd (ground (arith, missing, live))
    | inr (c, claimed) ↦
        let free : any_row (held_conflict b l) l.claims ≡ false =
          unfold startable in ground (arith, there, chosen-startable generation l d.chosen) in
        let key : c.task ≡ j = find-key j l.claims claimed in
        unfold held_conflict in
        ground (arith, claimed, live, key, any_row-find (held_conflict b l) j l.claims free claimed)
  ]

  own_exclusive :
      (o o' : Operation) (j : ℕ)
      → j ≢ d.task.id
      → live_operation d.task.id l' ≡ some o
      → live_operation j l' ≡ some o'
      → conflicts o o' ≡ false
  own_exclusive o o' j other own live =
      let (b, there, same) = own_live o own in
      ground (
        arith,
        same,
        conflicts-counted b o',
        no_conflict b o' j there (ground (arith, other_live j other, live)),
      )

-- Claims keep applies apart: if any two live claims of one workspace are both of requests, this
-- still holds after a successful claim.
pub claim-IsExclusive :
    (execution adapter generation slots now : ℕ) (l : Ledger) {r : ClaimRecord} {l' : Ledger}
    → IsExclusive l
    → claim execution adapter generation slots now l ≡ ok (some r, l')
    → IsExclusive l'
claim-IsExclusive execution adapter generation slots now l {r} {l'} e h i j o o' apart oi oj same =
    let d = claim-IsClaimed execution adapter generation slots now l h in
    let own = own_exclusive execution adapter generation slots now l d in
    let other = other_live execution adapter generation slots now l d in
    elim (ℕ_discrete i d.task.id) [
      | yes at ↦ Apart-of o o' (own o o' j (λ p. apart (at ∙ sym p)) (rw at at oi) oj) same
      | no i_other ↦ elim (ℕ_discrete j d.task.id) [
        | yes at ↦
            let swapped = Apart-of o' o (own o' o i i_other (rw at at oj) oi) (sym same) in
            (swapped.1, swapped.0)
        | no j_other ↦
            e i j o o' apart (sym (other i i_other) ∙ oi) (sym (other j j_other) ∙ oj) same
      ]
    ]
