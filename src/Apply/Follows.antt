-- ===== src/Apply/Follows.antt =====
-- How steps of an application may change its files (src/nyanya_agent/reviewed_changes.py).
use mathlib.Core.Path.{subst}
use nyanya_agent.Prelude.{
  ℕ, ◌≡◌, refl, sym, ap, ◌∙◌, Option, some, ◌⊎◌, inl, inr, List, [], ◌∷◌, Result, ok, err, Error,
}
use nyanya_agent.Prelude.Steps.{Run, ◌>>=◌, ◌>>◌, return, raise, try_except, proceed, recovered}
use nyanya_agent.Paths.{Text}
use nyanya_agent.Messages.{take}
use nyanya_agent.Ledger.{Change, ChangeAction}
use nyanya_agent.Apply.{World, Disk, planned}

-- The content that a change leaves when it writes its file: the planned one or, of a created file
-- whose write stopped, a beginning of it.
pub data IsWritten (c : Change) (file : Option Text) : Type 0 where
  whole : file ≡ planned c → IsWritten c file
  begun :
      c.action ≡ ChangeAction.create → (k : ℕ) → file ≡ some (take k c.content) → IsWritten c file

-- One of the changes has written this file.
abbrev pub WrittenBy : List Change → ℕ → Option Text → Type 0
WrittenBy [] path file = ⊥
WrittenBy (c ∷ cs) path file = ((c.path ≡ path) × IsWritten c file) ⊎ WrittenBy cs path file

-- Every file is as before or in a state that is allowed.
abbrev pub Follows : (ℕ → Option Text → Type 0) → Disk → Disk → Type 0
Follows W before after = (path : ℕ) → (after path ≡ before path) ⊎ W path (after path)

-- Whatever it answers, a step leaves these files of the world so.
abbrev pub Keeps {ℓ} :
    (World → Disk) → (ℕ → Option Text → Type 0) → {A : Type ℓ} → Run World A → Type 0
Keeps view W m = (w : World) → Follows W (view w) (view (m w).1)

abbrev pub on_disk : World → Disk
on_disk w = w.disk

-- A change of the list.
abbrev pub Listed : List Change → Change → Type 0
Listed cs c = (file : Option Text) → IsWritten c file → WrittenBy cs c.path file

-- Changes that are all among those of the list.
abbrev pub AllListed : List Change → List Change → Type 0
AllListed cs [] = Unit
AllListed cs (c ∷ rest) = Listed cs c × AllListed cs rest

AllListed-later : (d : Change) (cs rest : List Change) → AllListed cs rest → AllListed (d ∷ cs) rest
AllListed-later d cs [] all = tt
AllListed-later d cs (c ∷ rest) all =
    ((λ file written. inr (all.0 file written)), AllListed-later d cs rest all.1)

pub AllListed-self : (cs : List Change) → AllListed cs cs
AllListed-self [] = tt
AllListed-self (c ∷ cs) =
    ((λ file written. inl (refl, written)), AllListed-later c cs cs (AllListed-self cs))

module _ (view : World → Disk) (W : ℕ → Option Text → Type 0) where
  pub Follows-trans : (a b c : Disk) → Follows W a b → Follows W b c → Follows W a c
  Follows-trans a b c first second path = elim (second path) [
    | inr written ↦ inr written
    | inl same ↦ elim (first path) [
      | inl before ↦ inl (same ∙ before)
      | inr written ↦ inr (subst (W path) (sym same) written)
    ]
  ]

  pub Follows-same : (a b : Disk) → b ≡ a → Follows W a b
  Follows-same a b same path = inl (ap (λ d. d path) same)

  proceed-Follows {ℓ κ} :
      {A : Type ℓ} {B : Type κ} (d : Disk) (r : Result A × World) (f : A → Run World B)
      → Follows W d (view r.1)
      → ((a : A) → Keeps view W (f a))
      → Follows W d (view (proceed r f).1)
  unfolding proceed
  proceed-Follows d (ok a, w) f first next = Follows-trans d (view w) _ first (next a w)
  proceed-Follows d (err e, w) f first next = first

  pub >>=-Keeps {ℓ κ} :
      {A : Type ℓ} {B : Type κ} (m : Run World A) (f : A → Run World B)
      → Keeps view W m
      → ((a : A) → Keeps view W (f a))
      → Keeps view W (m >>= f)
  unfolding ◌>>=◌
  >>=-Keeps m f first next w = proceed-Follows (view w) (m w) f (first w) next

  pub >>-Keeps {ℓ κ} :
      {A : Type ℓ} {B : Type κ} (m : Run World A) (n : Run World B)
      → Keeps view W m
      → Keeps view W n
      → Keeps view W (m >> n)
  unfolding ◌>>◌
  >>-Keeps m n first next = >>=-Keeps m (λ a. n) first (λ a. next)

  recovered-Follows {ℓ} :
      {A : Type ℓ} (d : Disk) (r : Result A × World) (handler : Error → Run World A)
      → Follows W d (view r.1)
      → ((e : Error) → Keeps view W (handler e))
      → Follows W d (view (recovered r handler).1)
  unfolding recovered
  recovered-Follows d (ok a, w) handler first next = first
  recovered-Follows d (err e, w) handler first next = Follows-trans d (view w) _ first (next e w)

  pub try_except-Keeps {ℓ} :
      {A : Type ℓ} (m : Run World A) (handler : Error → Run World A)
      → Keeps view W m
      → ((e : Error) → Keeps view W (handler e))
      → Keeps view W (try_except m handler)
  unfolding try_except
  try_except-Keeps m handler first next w = recovered-Follows (view w) (m w) handler (first w) next

  pub return-Keeps {ℓ} : {A : Type ℓ} (a : A) → Keeps view W (return a)
  unfolding return
  return-Keeps a w path = inl refl

  pub raise-Keeps : (e : Error) → Keeps view W (raise {A = Unit {0}} e)
  unfolding raise
  raise-Keeps e w path = inl refl
