-- ===== src/Apply/Observed.antt =====
-- What the observation of a plan's files says of them (`observe` of
-- src/nyanya_agent/reviewed_changes.py).
use nyanya_agent.Prelude.{
  ℕ, ◌≡◌, refl, true, Option, none, some, inl, inr, List, [], ◌∷◌, arith, Bool-cases, All,
}
use nyanya_agent.Ledger.{Change}
use nyanya_agent.Apply.{Outside, Disk, digest, hash_eq}
use nyanya_agent.Apply.Resolution.{observation, observe_file, observe, is_after, all_after}

hash_eq_same : (a b : Option ℕ) → hash_eq a b ≡ true → a ≡ b
unfolding hash_eq
hash_eq_same none none h = refl
hash_eq_same none (some b) h = cc h
hash_eq_same (some a) none h = cc h
hash_eq_same (some a) (some b) h = ground (arith, h)

hash_eq_self : (a : Option ℕ) → hash_eq a a ≡ true
unfolding hash_eq
hash_eq_self none = refl
hash_eq_self (some a) = ground arith

module _ (o : Outside) (disk : Disk) where
  -- The file is as the change leaves it.
  abbrev pub Made : Change → Type 0
  Made c = digest o (disk c.path) ≡ c.after_hash

  observed-Made : (c : Change) → is_after (observe_file o disk c).observed ≡ true → Made c
  unfolding observe_file observation is_after
  observed-Made c h = elim (Bool-cases (hash_eq (digest o (disk c.path)) c.after_hash)) [
    | inl same ↦ hash_eq_same (digest o (disk c.path)) c.after_hash same
    | inr other ↦ absurd (ground (arith, h, other))
  ]

  Made-observed : (c : Change) → Made c → is_after (observe_file o disk c).observed ≡ true
  unfolding observe_file observation is_after
  Made-observed c made = ground (arith, made, hash_eq_self c.after_hash)

  pub all_after-Made : (cs : List Change) → all_after (observe o disk cs) ≡ true → All Made cs
  unfolding all_after observe
  all_after-Made [] h = tt
  all_after-Made (c ∷ cs) h =
      (observed-Made c (ground (arith, h)), all_after-Made cs (ground (arith, h)))

  pub Made-all_after : (cs : List Change) → All Made cs → all_after (observe o disk cs) ≡ true
  unfolding all_after observe
  Made-all_after [] made = refl
  Made-all_after (c ∷ cs) (first, rest) =
      ground (arith, Made-observed c first, Made-all_after cs rest)
