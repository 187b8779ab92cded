-- ===== src/Messages.antt =====
-- How a reply is cut into messages: `split_message` of src/nyanya_agent/bridge_store.py.
pub mod Split
use nyanya_agent.Prelude.{
  ℕ, zero, suc, ◌+◌, ◌-◌, ◌/◌, Bool, true, false, not, ◌&&◌, ◌||◌, Option, none, some, List, [],
  ◌∷◌, ◌++◌, if◌then◌else◌, ◌==◌, leb, ltb,
}
use mathlib.Core.Option
use nyanya_agent.Paths.{Text, length}

abbrev pub newline : ℕ
newline = 10

-- `str.isspace`
unfoldable pub is_space : ℕ → Bool
is_space c =
    (leb 9 c && leb c 13)
    || (leb 28 c && leb c 32)
    || c == 133
    || c == 160
    || c == 5760
    || (leb 8192 c && leb c 8202)
    || c == 8232
    || c == 8233
    || c == 8239
    || c == 8287
    || c == 12288

unfoldable pub lstrip : Text → Text
lstrip [] = []
lstrip (c ∷ cs) = let rest = lstrip cs in if is_space c then rest else c ∷ cs

unfoldable pub with_first : ℕ → Text → Text
with_first c [] = if is_space c then [] else c ∷ []
with_first c (d ∷ ds) = c ∷ d ∷ ds

unfoldable pub rstrip : Text → Text
unfolding with_first
rstrip [] = []
rstrip (c ∷ cs) = with_first c (rstrip cs)

-- `current[:n]` and `current[n:]`
unfoldable pub take : ℕ → Text → Text
take zero t = []
take (suc n) [] = []
take (suc n) (c ∷ cs) = c ∷ take n cs

unfoldable pub drop : ℕ → Text → Text
drop zero t = t
drop (suc n) [] = []
drop (suc n) (c ∷ cs) = drop n cs

-- `current.rfind("\n", 0, limit)`; none for -1
unfoldable pub last_newline : ℕ → Text → Option ℕ
last_newline zero t = none
last_newline (suc n) [] = none
last_newline (suc n) (c ∷ cs) = elim (last_newline n cs) [
  | some i ↦ some (suc i)
  | none ↦ if c == newline then some 0 else none
]

-- `if split_at < limit // 2: split_at = limit`
unfoldable pub split_at : ℕ → Text → ℕ
split_at limit t = elim (last_newline limit t) [
  | none ↦ limit
  | some i ↦ if ltb i (limit / 2) then limit else i
]

unfoldable pub last_chunk : Text → List Text
last_chunk [] = []
last_chunk (c ∷ cs) = (c ∷ cs) ∷ []

-- The loop, on fuel.
unfoldable pub split_loop : ℕ → ℕ → Text → Option (List Text)
split_loop zero limit current = none
split_loop (suc fuel) limit current =
    let k = split_at limit current in
    let rest = split_loop fuel limit (lstrip (drop k current)) in
    if ltb limit (length current)
    then Option.map (λ chunks. rstrip (take k current) ∷ chunks) rest
    else some (last_chunk current)

-- Each round takes a character at least, so the text's length is fuel enough.
unfoldable pub split_message : Text → ℕ → Option (List Text)
split_message text limit =
    if leb (length text) limit then some (text ∷ []) else split_loop (length text + 1) limit text
