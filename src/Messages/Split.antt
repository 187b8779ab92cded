-- ===== src/Messages/Split.antt =====
-- About the pieces of `split_message` of src/nyanya_agent/bridge_store.py.
use nyanya_agent.Prelude.{
  ℕ, zero, suc, ◌+◌, ◌-◌, ◌≤◌, ◌<◌, ◌≡◌, refl, ◌∙◌, true, not, some, inl, inr, List, [], ◌∷◌, ◌++◌,
  arith, ◌==◌, leb, ltb, Bool-cases, Option-cases, select, All,
}
use mathlib.Core.List.{append-nil}
use nyanya_agent.Paths.{Text, length}
use nyanya_agent.Messages.{
  is_space, newline, lstrip, rstrip, with_first, take, drop, last_newline, split_at, last_chunk,
  split_loop, split_message,
}

-- What is left of a text without its white space.
unfoldable pub visible : Text → Text
unfolding select
visible t = select (λ c. not (is_space c)) t

unfoldable pub visible_in : List Text → Text
visible_in [] = []
visible_in (c ∷ cs) = visible c ++ visible_in cs

lstrip-visible : (t : Text) → visible (lstrip t) ≡ visible t
unfolding lstrip visible
lstrip-visible [] = refl
lstrip-visible (c ∷ cs) = ground (arith, lstrip-visible cs)

with_first-visible : (c : ℕ) (t : Text) → visible (with_first c t) ≡ visible (c ∷ t)
unfolding with_first visible
with_first-visible c [] = ground arith
with_first-visible c (d ∷ ds) = refl

visible-cons : (c : ℕ) (t u : Text) → visible t ≡ visible u → visible (c ∷ t) ≡ visible (c ∷ u)
unfolding visible
visible-cons c t u h = ground (arith, h)

rstrip-visible : (t : Text) → visible (rstrip t) ≡ visible t
unfolding rstrip
rstrip-visible [] = refl
rstrip-visible (c ∷ cs) =
    with_first-visible c (rstrip cs) ∙ visible-cons c (rstrip cs) cs (rstrip-visible cs)

take-drop-visible : (n : ℕ) (t : Text) → visible (take n t) ++ visible (drop n t) ≡ visible t
unfolding take drop visible
take-drop-visible zero t = refl
take-drop-visible (suc n) [] = refl
take-drop-visible (suc n) (c ∷ cs) = ground (arith, take-drop-visible n cs)

lstrip-length : (t : Text) → length (lstrip t) ≤ length t
unfolding lstrip length
lstrip-length [] = omega arith
lstrip-length (c ∷ cs) = ground (arith, lstrip-length cs)

with_first-length : (c : ℕ) (t : Text) → length (with_first c t) ≤ 1 + length t
unfolding with_first length
with_first-length c [] = ground arith
with_first-length c (d ∷ ds) = omega arith

rstrip-length : (t : Text) → length (rstrip t) ≤ length t
unfolding rstrip length
rstrip-length [] = omega arith
rstrip-length (c ∷ cs) = omega (arith, with_first-length c (rstrip cs), rstrip-length cs)

take-length : (n : ℕ) (t : Text) → length (take n t) ≤ n
unfolding take length
take-length zero t = omega arith
take-length (suc n) [] = omega arith
take-length (suc n) (c ∷ cs) = omega (arith, take-length n cs)

drop-length : (n : ℕ) (t : Text) → length (drop n t) ≡ length t - n
unfolding drop length
drop-length zero t = omega arith
drop-length (suc n) [] = omega arith
drop-length (suc n) (c ∷ cs) = omega (arith, drop-length n cs)

last_newline-bound : (n : ℕ) (t : Text) {i : ℕ} → last_newline n t ≡ some i → i < n
unfolding last_newline
last_newline-bound zero t h = cc
last_newline-bound (suc n) [] h = cc
last_newline-bound (suc n) (c ∷ cs) {i} h = elim (Option-cases (last_newline n cs)) [
  | inl missing ↦ ground (arith, h, missing)
  | inr (j, there) ↦
      let less = last_newline-bound n cs there in
      let same : suc j ≡ i = ground (arith, h, there) in omega (arith, less, same)
]

split_at-bound : (limit : ℕ) (t : Text) → split_at limit t ≤ limit
unfolding split_at
split_at-bound limit t = elim (Option-cases (last_newline limit t)) [
  | inl missing ↦ ground (arith, missing)
  | inr (i, there) ↦ ground (arith, there, last_newline-bound limit t there)
]

-- A newline at the beginning is white space.
leading_newline : (n : ℕ) (t : Text) → last_newline n t ≡ some 0 → length (lstrip t) < length t
unfolding last_newline length lstrip
leading_newline zero t h = cc
leading_newline (suc n) [] h = cc
leading_newline (suc n) (c ∷ cs) h = elim (Option-cases (last_newline n cs)) [
  | inl missing ↦
      let first : (c == newline) ≡ true = ground (arith, h, missing) in
      let space : is_space c ≡ true = unfold is_space in ground (arith, first) in
      ground (arith, space, lstrip-length cs)
  | inr (j, there) ↦ absurd (ground (arith, h, there))
]

split_at-zero :
    (limit : ℕ) (t : Text) → 1 ≤ limit → split_at limit t ≡ 0 → last_newline limit t ≡ some 0
unfolding split_at
split_at-zero limit t positive h = elim (Option-cases (last_newline limit t)) [
  | inl missing ↦ absurd (ground (arith, missing))
  | inr (i, there) ↦ ground (arith, there)
]

-- Every round of the loop leaves a shorter text.
split-progress :
    (k limit : ℕ) (t : Text)
    → split_at limit t ≡ k
    → 1 ≤ limit
    → limit < length t
    → length (lstrip (drop k t)) < length t
split-progress zero limit t at positive longer =
    unfold drop in leading_newline limit t (split_at-zero limit t positive at)
split-progress (suc k) limit t at positive longer =
    omega (arith, lstrip-length (drop (suc k) t), drop-length (suc k) t)

-- The chunks of a text: none is longer than the limit, and they keep all but white space.
pub record IsSplit (limit : ℕ) (t : Text) (chunks : List Text) : Type 0 where
  pub bounded : All (λ c. length c ≤ limit) chunks
  pub complete : visible_in chunks ≡ visible t

last_chunk-IsSplit : (limit : ℕ) (t : Text) → length t ≤ limit → IsSplit limit t (last_chunk t)
unfolding last_chunk visible_in visible
last_chunk-IsSplit limit [] h = record { bounded = tt; complete = refl }
last_chunk-IsSplit limit (c ∷ cs) h = record { bounded = (h, tt); complete = append-nil _ }

visible-chunk :
    (k : ℕ) (t : Text) (rest : List Text)
    → visible_in rest ≡ visible (lstrip (drop k t))
    → visible_in (rstrip (take k t) ∷ rest) ≡ visible t
unfolding visible_in
visible-chunk k t rest h =
    ground (arith, h, rstrip-visible (take k t), lstrip-visible (drop k t), take-drop-visible k t)

split_loop-IsSplit :
    (fuel limit : ℕ) (t : Text)
    → 1 ≤ limit
    → length t < fuel
    → (chunks : List Text) × (split_loop fuel limit t ≡ some chunks) × IsSplit limit t chunks
unfolding split_loop
split_loop-IsSplit zero limit t positive enough = absurd (omega arith)
split_loop-IsSplit (suc fuel) limit t positive enough = elim (Bool-cases (ltb limit (length t))) [
  | inr short ↦
      (last_chunk t, ground (arith, short), last_chunk-IsSplit limit t (ground (arith, short)))
  | inl longer ↦
      let k = split_at limit t in
      let (rest, runs, s) =
        split_loop-IsSplit fuel limit (lstrip (drop k t)) positive
          (omega (arith, split-progress k limit t refl positive (ground (arith, longer)))) in
      (
        rstrip (take k t) ∷ rest,
        ground (arith, longer, runs),
        record {
          bounded = (
            omega (arith, rstrip-length (take k t), take-length k t, split_at-bound limit t),
            s.bounded,
          );
          complete = visible-chunk k t rest s.complete;
        },
      )
]

-- For a positive limit `split_message` returns (its loop ends), none of its chunks is longer than the
-- limit, and together they keep every character of the text but white space, in order.
pub split_message-IsSplit :
    (text : Text) (limit : ℕ)
    → 1 ≤ limit
    → (chunks : List Text) × (split_message text limit ≡ some chunks) × IsSplit limit text chunks
unfolding split_message
split_message-IsSplit text limit positive = elim (Bool-cases (leb (length text) limit)) [
  | inl short ↦ (
    text ∷ [],
    ground (arith, short),
    record {
      bounded = (ground (arith, short), tt);
      complete = unfold visible_in in append-nil (visible text);
    },
  )
  | inr long ↦
      let (chunks, runs, s) =
        split_loop-IsSplit (length text + 1) limit text positive (omega arith) in
      (chunks, ground (arith, long, runs), s)
]
