-- ===== src/Paths.antt =====
-- Texts as lists of code points, `pathlib.PurePosixPath` as the code uses it, and the checks of
-- texts and paths in src/nyanya_agent/upload_approval.py.
pub mod RoundTrip
use nyanya_agent.Prelude.{
  ℕ, Bool, true, false, not, ◌&&◌, ◌||◌, List, [], ◌∷◌, ◌++◌, ◌+◌, if◌then◌else◌, ◌==◌, leb, ltb,
  Result, ok, ◌>>=◌, ◌>>◌, raise_if, safe_operation, select, any_row,
}

abbrev pub Text : Type 0
Text = List ℕ

abbrev pub slash : ℕ
slash = 47

abbrev pub backslash : ℕ
backslash = 92

abbrev pub dot : ℕ
dot = 46

unfoldable pub length : Text → ℕ
length [] = 0
length (c ∷ cs) = 1 + length cs

unfoldable pub contains : ℕ → Text → Bool
contains c [] = false
contains c (x ∷ xs) = x == c || contains c xs

unfoldable pub text_eq : Text → Text → Bool
text_eq [] [] = true
text_eq [] (y ∷ ys) = false
text_eq (x ∷ xs) [] = false
text_eq (x ∷ xs) (y ∷ ys) = x == y && text_eq xs ys

unfoldable pub with_head : ℕ → List Text → List Text
with_head c [] = (c ∷ []) ∷ []
with_head c (p ∷ ps) = (c ∷ p) ∷ ps

-- `value.split("/")`
unfoldable pub split : Text → List Text
unfolding with_head
split [] = [] ∷ []
split (c ∷ cs) = let rest = split cs in if c == slash then [] ∷ rest else with_head c rest

-- `"/".join(parts)`
unfoldable pub join : List Text → Text
join [] = []
join (p ∷ []) = p
join (p ∷ q ∷ ps) = p ++ slash ∷ join (q ∷ ps)

-- `PurePosixPath` drops the parts "" and ".".
unfoldable pub kept : Text → Bool
kept [] = false
kept (c ∷ []) = not (c == dot)
kept (c ∷ d ∷ cs) = true

unfoldable pub is_parent : Text → Bool
is_parent (c ∷ d ∷ []) = c == dot && d == dot
is_parent p = false

-- The roots "", "/" and "//"; three slashes or more are one.
pub data Root : Type 0 where
  relative single double : Root

unfoldable pub root_after_two : Text → Root
root_after_two [] = double
root_after_two (c ∷ cs) = if c == slash then single else double

unfoldable pub root_after_one : Text → Root
unfolding root_after_two
root_after_one [] = single
root_after_one (c ∷ cs) = if c == slash then root_after_two cs else single

unfoldable pub root_of : Text → Root
unfolding root_after_one
root_of [] = relative
root_of (c ∷ cs) = if c == slash then root_after_one cs else relative

pub record PurePath : Type 0 where
  pub root : Root
  pub parts : List Text

-- `PurePosixPath(value)`
unfoldable pub parse_path : Text → PurePath
parse_path value = record { root = root_of value; parts = select kept (split value) }

unfoldable pub is_absolute : PurePath → Bool
is_absolute p = elim p.root [ relative ↦ false | single ↦ true | double ↦ true ]

unfoldable pub no_parts : List Text → Bool
no_parts [] = true
no_parts (p ∷ ps) = false

unfoldable pub print_relative : List Text → Text
print_relative [] = dot ∷ []
print_relative (p ∷ ps) = join (p ∷ ps)

-- `str(path)`
unfoldable pub print_path : PurePath → Text
print_path p = elim p.root [
  | relative ↦ print_relative p.parts
  | single ↦ slash ∷ join p.parts
  | double ↦ slash ∷ slash ∷ join p.parts
]

-- `_text`
unfoldable pub check_text : Text → ℕ → Result (Unit {0})
check_text value limit =
    raise_if (leb (length value) 0 || ltb limit (length value) || any_row (λ c. ltb c 32) value)
      safe_operation

-- `_workspace`
unfoldable pub check_workspace : Text → Result Text
check_workspace value = do
  check_text value 4096
  let path = parse_path value
  raise_if (not (is_absolute path) || any_row is_parent path.parts) safe_operation
  ok (print_path path)

-- `_relative`
unfoldable pub check_relative : Text → Result Text
check_relative value = do
  check_text value 4096
  let path = parse_path value
  raise_if
      (is_absolute path
        || any_row is_parent path.parts
        || no_parts path.parts
        || contains backslash value)
      safe_operation
  ok (print_path path)

unfoldable pub is_hex : ℕ → Bool
is_hex c = (leb 48 c && leb c 57) || (leb 97 c && leb c 102)

-- `_digest`
unfoldable pub check_digest : Text → Result Text
check_digest value = do
  raise_if (not (length value == 64) || any_row (λ c. not (is_hex c)) value) safe_operation
  ok value
