-- ===== src/Common/Text/Laws.antt =====
-- Laws of splitting a text at a character and of its first character.
use Prim.Native.Nat.{ℕ}
use Prim.Native.Char.{Char, code}
use Prim.Native.String
use Prim.Native.String.{String}
use mathlib.Core.Path.{◌≡◌, refl, sym, ap, ap₂, ◌∙◌}
use mathlib.Core.Logic.{◌≢◌, inl, inr}
use mathlib.Core.Bool.{true, false}
use mathlib.Core.List.{List, [], ◌∷◌, ◌++◌}
use native.Mathlib.Omega.{arith}
use text.Mathlib.TextEquality.{Char-path}
use text.Mathlib.TextLemmas.{nil-append, cons-append}
use confidential_agent.Common.Tests.{nat_eqb, Bool-cases}
use confidential_agent.Common.Lists.{All}
use confidential_agent.Common.Text.{onto_first, split, starts_with, contains_char, is_empty}

split-cons : (k : ℕ) (s : String) → (h : String) × (t : List String) × (split k s ≡ h ∷ t)
unfolding split
split-cons k String.[] = ("", [], refl)
split-cons k (String.◌∷◌ c s) =
    let (h, t, e) = split-cons k s in
    elim (Bool-cases (nat_eqb (code c) k)) [
      | inl same ↦ ("", split k s, rw same)
      | inr other ↦ (String.◌∷◌ c h, t, rw other (rw e))
    ]

onto_first-split-append :
    (c : Char) (k : ℕ) (s : String) (parts : List String)
    → onto_first c (split k s ++ parts) ≡ onto_first c (split k s) ++ parts
onto_first-split-append c k s parts = let (h, t, e) = split-cons k s in rw e

-- A separator between two texts splits them apart.
pub split-append :
    (k : ℕ) (sep : Char) (s t : String)
    → code sep ≡ k
    → split k (String.◌++◌ s (String.◌∷◌ sep t)) ≡ split k s ++ split k t
unfolding split
split-append k sep String.[] t h =
    let here : nat_eqb (code sep) k ≡ true = ground arith in
    rw (nil-append (String.◌∷◌ sep t)) (rw here)
split-append k sep (String.◌∷◌ c s) t h =
    rw (cons-append c s (String.◌∷◌ sep t)) (elim (Bool-cases (nat_eqb (code c) k)) [
      | inl same ↦ rw same (ap (λ parts. "" ∷ parts) (split-append k sep s t h))
      | inr other ↦
          rw other (
            ap (onto_first c) (split-append k sep s t h)
            ∙ onto_first-split-append c k s (split k t))
    ])

-- A text without the separator is one part.
pub split_whole : (k : ℕ) (s : String) → contains_char k s ≡ false → split k s ≡ s ∷ []
unfolding split contains_char
split_whole k String.[] h = refl
split_whole k (String.◌∷◌ c s) h = ground (arith, split_whole k s)

All-onto_first :
    (k : ℕ) (c : Char) (parts : List String)
    → nat_eqb (code c) k ≡ false
    → All (λ s. contains_char k s ≡ false) parts
    → All (λ s. contains_char k s ≡ false) (onto_first c parts)
unfolding contains_char
All-onto_first k c [] h g = ground arith
All-onto_first k c (s ∷ parts) h g = ground arith

-- No part holds the separator.
pub split-contains_char :
    (k : ℕ) (s : String) → All (λ part. contains_char k part ≡ false) (split k s)
unfolding split contains_char
split-contains_char k String.[] = (refl, tt)
split-contains_char k (String.◌∷◌ c s) = elim (Bool-cases (nat_eqb (code c) k)) [
  | inl same ↦ rw same (refl, split-contains_char k s)
  | inr other ↦ rw other (All-onto_first k c (split k s) other (split-contains_char k s))
]

-- A text that is not empty keeps its first character in front of another.
pub starts_with-append :
    (k : ℕ) (s t : String) → is_empty s ≡ false → starts_with k (String.◌++◌ s t) ≡ starts_with k s
unfolding starts_with is_empty
starts_with-append k String.[] t h = cc
starts_with-append k (String.◌∷◌ c s) t h = rw (cons-append c s t)

pub is_empty-append : (s t : String) → is_empty s ≡ false → is_empty (String.◌++◌ s t) ≡ false
unfolding is_empty
is_empty-append String.[] t h = cc
is_empty-append (String.◌∷◌ c s) t h = rw (cons-append c s t)

pub starts_with_of_contains_char :
    (k : ℕ) (s : String) → contains_char k s ≡ false → starts_with k s ≡ false
unfolding starts_with contains_char
starts_with_of_contains_char k String.[] h = refl
starts_with_of_contains_char k (String.◌∷◌ c s) h = ground arith

pub is_empty_of_ne : (s : String) → s ≢ "" → is_empty s ≡ false
unfolding is_empty
is_empty_of_ne String.[] h = absurd (h refl)
is_empty_of_ne (String.◌∷◌ c s) h = refl

-- The parts put together again.
unsplit : Char → List String → String
unsplit sep [] = ""
unsplit sep (s ∷ []) = s
unsplit sep (s ∷ t ∷ parts) = String.◌++◌ s (String.◌∷◌ sep (unsplit sep (t ∷ parts)))

unsplit-onto_first :
    (sep c : Char) (h : String) (t : List String)
    → unsplit sep (onto_first c (h ∷ t)) ≡ String.◌∷◌ c (unsplit sep (h ∷ t))
unfolding unsplit
unsplit-onto_first sep c h [] = refl
unsplit-onto_first sep c h (s ∷ parts) = cons-append c h _

unsplit-split : (sep : Char) (s : String) → unsplit sep (split (code sep) s) ≡ s
unfolding split unsplit
unsplit-split sep String.[] = refl
unsplit-split sep (String.◌∷◌ c s) =
    let (h, t, parted) = split-cons (code sep) s in
    let ih : unsplit sep (h ∷ t) ≡ s = rw parted at (unsplit-split sep s) in
    elim (Bool-cases (nat_eqb (code c) (code sep))) [
      | inl e ↦ rw e (rw parted (nil-append _ ∙ ap₂ String.◌∷◌ (Char-path sep c (ground arith)) ih))
      | inr e ↦ rw e (rw parted (unsplit-onto_first sep c h t ∙ ap (String.◌∷◌ c) ih))
    ]

-- A text is determined by its parts.
pub split_injective : (sep : Char) (s t : String) → split (code sep) s ≡ split (code sep) t → s ≡ t
split_injective sep s t e = sym (unsplit-split sep s) ∙ ap (unsplit sep) e ∙ unsplit-split sep t
