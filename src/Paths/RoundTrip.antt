-- ===== src/Paths/RoundTrip.antt =====
-- What a checked relative path denotes (`_relative` of src/nyanya_agent/upload_approval.py).
use mathlib.Core.Path.{◌∙◌}
use nyanya_agent.Prelude.{
  ℕ, ◌≡◌, refl, ap, true, false, List, [], ◌∷◌, ◌++◌, inl, inr, arith, ◌==◌, Bool-cases, ok, select,
  any_row, All,
}
use nyanya_agent.Paths.{
  Text, slash, contains, with_head, split, join, kept, is_parent, Root, relative, single, double,
  root_after_one, root_after_two, root_of, PurePath, parse_path, is_absolute, no_parts,
  print_relative, print_path, check_relative,
}

-- A part that `PurePosixPath` keeps: no "" or ".", and no slash in it.
abbrev IsPart : Text → Type 0
IsPart p = (kept p ≡ true) × (contains slash p ≡ false)

split-slashless : (p : Text) → contains slash p ≡ false → split p ≡ p ∷ []
unfolding split contains with_head
split-slashless [] h = refl
split-slashless (c ∷ cs) h = ground (arith, split-slashless cs)

split-join_step : (p v : Text) → contains slash p ≡ false → split (p ++ slash ∷ v) ≡ p ∷ split v
unfolding split contains with_head
split-join_step [] v h = refl
split-join_step (c ∷ cs) v h = ground (arith, split-join_step cs v)

parts-join : (ps : List Text) → All IsPart ps → select kept (split (join ps)) ≡ ps
unfolding split join select kept
parts-join [] h = refl
parts-join (p ∷ []) h = ground (arith, split-slashless p h.0.1, h.0.0)
parts-join (p ∷ q ∷ ps) h =
    ground (arith, split-join_step p (join (q ∷ ps)) h.0.1, h.0.0, parts-join (q ∷ ps) h.1)

with_head-slashless :
    (c : ℕ) (ps : List Text)
    → (c == slash) ≡ false
    → All (λ p. contains slash p ≡ false) ps
    → All (λ p. contains slash p ≡ false) (with_head c ps)
unfolding with_head contains
with_head-slashless c [] h all = (ground arith, tt)
with_head-slashless c (p ∷ ps) h all = (ground (arith, all.0), all.1)

split-All : (v : Text) → All (λ p. contains slash p ≡ false) (split v)
unfolding split
split-All [] = (unfold contains in refl, tt)
split-All (c ∷ cs) = elim (Bool-cases (c == slash)) [
  | inl here ↦ rw here (unfold contains in refl, split-All cs)
  | inr there ↦ rw there (with_head-slashless c (split cs) there (split-All cs))
]

select-All : (ps : List Text) → All (λ p. contains slash p ≡ false) ps → All IsPart (select kept ps)
unfolding select
select-All [] h = tt
select-All (p ∷ ps) h = elim (Bool-cases (kept p)) [
  | inl here ↦ rw here ((here, h.0), select-All ps h.1)
  | inr there ↦ rw there (select-All ps h.1)
]

parts-IsPart : (v : Text) → All IsPart (select kept (split v))
parts-IsPart v = select-All (split v) (split-All v)

-- A joined path does not begin with a slash.
data IsUnrooted : Text → Type 0 where
  nothing : IsUnrooted []
  begins : (c : ℕ) (cs : Text) → (c == slash) ≡ false → IsUnrooted (c ∷ cs)

join-IsUnrooted : (ps : List Text) → All IsPart ps → IsUnrooted (join ps)
unfolding join kept contains
join-IsUnrooted [] h = nothing
join-IsUnrooted ([] ∷ ps) h = cc
join-IsUnrooted ((c ∷ cs) ∷ []) h = begins c cs (ground (arith, h.0.1))
join-IsUnrooted ((c ∷ cs) ∷ q ∷ ps) h =
    begins c (cs ++ slash ∷ join (q ∷ ps)) (ground (arith, h.0.1))

root-single : {v : Text} → IsUnrooted v → root_of (slash ∷ v) ≡ single
unfolding root_of root_after_one
root-single nothing = refl
root-single (begins c cs h) = ground (arith, h)

root-double : {v : Text} → IsUnrooted v → root_of (slash ∷ slash ∷ v) ≡ double
unfolding root_of root_after_one root_after_two
root-double nothing = refl
root-double (begins c cs h) = ground (arith, h)

root-relative : {v : Text} → IsUnrooted v → root_of v ≡ relative
unfolding root_of
root-relative nothing = refl
root-relative (begins c cs h) = ground (arith, h)

parse-print_relative :
    (ps : List Text)
    → All IsPart ps
    → parse_path (print_relative ps) ≡ record { root = relative; parts = ps }
unfolding parse_path print_relative
parse-print_relative [] h = unfold root_of split with_head select kept in refl
parse-print_relative (p ∷ ps) h =
    cc (root-relative (join-IsUnrooted (p ∷ ps) h), parts-join (p ∷ ps) h)

parse-print_single :
    (ps : List Text)
    → All IsPart ps
    → parse_path (slash ∷ join ps) ≡ record { root = single; parts = ps }
unfolding parse_path split select kept
parse-print_single ps h = ground (arith, root-single (join-IsUnrooted ps h), parts-join ps h)

parse-print_double :
    (ps : List Text)
    → All IsPart ps
    → parse_path (slash ∷ slash ∷ join ps) ≡ record { root = double; parts = ps }
unfolding parse_path split select kept
parse-print_double ps h = ground (arith, root-double (join-IsUnrooted ps h), parts-join ps h)

parse-print :
    (root : Root) (ps : List Text)
    → All IsPart ps
    → parse_path (print_path (record { root = root; parts = ps }))
      ≡ record { root = root; parts = ps }
unfolding print_path
parse-print relative ps h = parse-print_relative ps h
parse-print single ps h = parse-print_single ps h
parse-print double ps h = parse-print_double ps h

-- Reading a path's text back gives the path: `PurePosixPath(str(PurePosixPath(value)))` is
-- `PurePosixPath(value)` for every text.
pub path_round_trip : (value : Text) → parse_path (print_path (parse_path value)) ≡ parse_path value
unfolding parse_path
path_round_trip value = parse-print (root_of value) (select kept (split value)) (parts-IsPart value)

-- A path that stays below the directory it is joined to.
pub record IsConfined (path : PurePath) : Type 0 where
  pub not_absolute : is_absolute path ≡ false
  pub not_upwards : any_row is_parent path.parts ≡ false
  pub not_empty : no_parts path.parts ≡ false

-- What `_relative` returns denotes the same path as its argument, and that path is relative, not
-- empty and without "..".
pub check_relative-IsConfined :
    (value : Text) {checked : Text}
    → check_relative value ≡ ok checked
    → (parse_path checked ≡ parse_path value) × IsConfined (parse_path checked)
check_relative-IsConfined value {checked} h =
    let printed : checked ≡ print_path (parse_path value) = unfold check_relative in ground arith in
    let same : parse_path checked ≡ parse_path value =
      (ap parse_path printed ∙ path_round_trip value) in
    (
      same,
      rw same (record {
        not_absolute = unfold check_relative in ground arith;
        not_upwards = unfold check_relative in ground arith;
        not_empty = unfold check_relative in ground arith;
      }),
    )
