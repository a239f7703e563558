-- ===== src/Common/BTree/Laws.antt =====
-- The order of texts, and the laws of maps over it.
use Prim.Native.Nat.{ℕ, Ordering, compare as compare_ℕ}
use Prim.Native.Char.{code}
use Prim.Native.String.compare as compare_text
use Prim.Native.String.{String, compare, then as lexical}
use mathlib.Core.Path.{◌≡◌, refl, ◌∙◌, ap}
use mathlib.Core.Bool.{Bool, true, false}
use mathlib.Core.Logic.{◌≢◌, ◌↔◌, ◌⊎◌, inl, inr}
use mathlib.Core.Option.{none, some}
use mathlib.Core.List.{List, [], ◌∷◌}
use native.Mathlib.Omega.{arith}
use text.Mathlib.TextEquality.{eq_iff, path_by_compare}
use text.Mathlib.TextPositions.{compare_refl}
use confidential_agent.Common.Tests.{Bool-cases, ◌==◌, string_eq, if◌then◌else◌}
use confidential_agent.Common.Lists.{All, Any, Distinct}
use confidential_agent.Common.BTree.{BTreeMap, insert, get, contains_key, keys, filter_keys, set_of}

-- The order of texts is that of their bytes, which is that of their code points.
abbrev pub Before : String → String → Type 0
Before s t = compare s t ≡ Ordering.lt

abbrev flip_order : Ordering → Ordering
flip_order Ordering.lt = Ordering.gt
flip_order Ordering.eq = Ordering.eq
flip_order Ordering.gt = Ordering.lt

flip_step :
    (m n : ℕ) (o : Ordering)
    → lexical (compare_ℕ n m) (flip_order o) ≡ flip_order (lexical (compare_ℕ m n) o)
flip_step m n o = ground arith

compare_flip : (s t : String) → compare t s ≡ flip_order (compare s t)
compare_flip String.[] String.[] = refl
compare_flip String.[] (String.◌∷◌ d t) =
    cc (compare_text.cons-nil d t, ap flip_order (compare_text.nil-cons d t))
compare_flip (String.◌∷◌ c s) String.[] =
    cc (compare_text.nil-cons c s, ap flip_order (compare_text.cons-nil c s))
compare_flip (String.◌∷◌ c s) (String.◌∷◌ d t) =
    rw (compare_text.cons-cons c d s t, compare_text.cons-cons d c t s, compare_flip s t)
      (flip_step (code c) (code d) (compare s t))

Before-trans : (r s t : String) → Before r s → Before s t → Before r t
Before-trans String.[] String.[] t h k = cc
Before-trans (String.◌∷◌ c r) String.[] t h k = cc (compare_text.cons-nil c r)
Before-trans r (String.◌∷◌ d s) String.[] h k = cc (compare_text.cons-nil d s)
Before-trans String.[] (String.◌∷◌ d s) (String.◌∷◌ e t) h k = compare_text.nil-cons e t
Before-trans (String.◌∷◌ c r) (String.◌∷◌ d s) (String.◌∷◌ e t) h k = ground (
  arith,
  compare_text.cons-cons c d r s,
  compare_text.cons-cons d e s t,
  compare_text.cons-cons c e r t,
  Before-trans r s t,
)

After-Before : (s t : String) → compare s t ≡ Ordering.gt → Before t s
After-Before s t h = compare_flip s t ∙ ap flip_order h

Before-ne : (s t : String) → Before s t → s ≢ t
Before-ne s t h e = cc (compare_refl t, rw e at h)

All-Before-trans :
    (k j : String) (ks : List String) → Before k j → All (Before j) ks → All (Before k) ks
All-Before-trans k j [] h _ = tt
All-Before-trans k j (i ∷ ks) h (b, bs) = (Before-trans k j i h b, All-Before-trans k j ks h bs)

All-Before-ne : (k : String) (ks : List String) → All (Before k) ks → All (λ j. k ≢ j) ks
All-Before-ne k [] h = tt
All-Before-ne k (j ∷ ks) (b, bs) = (Before-ne k j b, All-Before-ne k ks bs)

-- The texts in ascending order.
abbrev pub IsAscending : List String → Type 0
IsAscending [] = Unit
IsAscending (s ∷ ks) = All (Before s) ks × IsAscending ks

pub IsAscending-Distinct : (ks : List String) → IsAscending ks → Distinct ks
IsAscending-Distinct [] h = tt
IsAscending-Distinct (k ∷ ks) (b, h) = (All-Before-ne k ks b, IsAscending-Distinct ks h)

module _ {ℓ} {V : Type ℓ} where
  -- The representation's invariant: the keys are in ascending order.
  abbrev pub IsSorted : BTreeMap V → Type 0
  IsSorted m = IsAscending (keys m)

  pub get-insert :
      (k j : String) (v : V) (m : BTreeMap V)
      → get j (insert k v m) ≡ (if k == j then some v else get j m)
  unfolding get insert
  get-insert k j v [] = refl
  get-insert k j v ((i, w) ∷ m) = ground (
    arith,
    get-insert k j v m,
    eq_iff k j,
    eq_iff i j,
    eq_iff k i,
    path_by_compare k i,
    compare_refl k,
    compare_refl i,
  )

  All-insert :
      (j k : String) (v : V) (m : BTreeMap V)
      → Before j k
      → All (Before j) (keys m)
      → All (Before j) (keys (insert k v m))
  unfolding keys insert
  All-insert j k v [] h _ = (h, tt)
  All-insert j k v ((i, w) ∷ m) h bs = ground (arith, All-insert j k v m h)

  pub insert-IsSorted : (k : String) (v : V) (m : BTreeMap V) → IsSorted m → IsSorted (insert k v m)
  unfolding keys insert
  insert-IsSorted k v [] h = (tt, tt)
  insert-IsSorted k v ((j, w) ∷ m) h = ground (
    arith,
    insert-IsSorted k v m,
    All-insert j k v m,
    After-Before k j,
    path_by_compare k j,
    All-Before-trans k j (keys m),
  )

  pub mem-keys-insert_iff :
      (j k : String) (v : V) (m : BTreeMap V)
      → Any (λ i. i ≡ j) (keys (insert k v m)) ↔ ((k ≡ j) ⊎ Any (λ i. i ≡ j) (keys m))
  unfolding keys insert
  mem-keys-insert_iff j k v [] = (λ h. h, λ h. h)
  mem-keys-insert_iff j k v ((i, w) ∷ m) =
      ground (arith, mem-keys-insert_iff j k v m, path_by_compare k i)

  pub contains_key_iff :
      (k : String) (m : BTreeMap V) → (contains_key k m ≡ true) ↔ Any (λ i. i ≡ k) (keys m)
  unfolding contains_key keys
  contains_key_iff k [] = (λ h. cc, λ h. absurd h)
  contains_key_iff k ((j, v) ∷ m) = ground (arith, eq_iff j k, contains_key_iff k m)

  pub contains_key-eq-false_iff :
      (k : String) (m : BTreeMap V) → (contains_key k m ≡ false) ↔ (get k m ≡ none)
  unfolding contains_key get
  contains_key-eq-false_iff k [] = (λ h. refl, λ h. refl)
  contains_key-eq-false_iff k ((j, v) ∷ m) = ground (arith, contains_key-eq-false_iff k m)

  pub get-filter_keys :
      (p : String → Bool) (k : String) (m : BTreeMap V)
      → get k (filter_keys p m) ≡ (if p k then get k m else none)
  unfolding get filter_keys
  get-filter_keys p k [] = ground arith
  get-filter_keys p k ((j, v) ∷ m) = ground (arith, eq_iff j k, get-filter_keys p k m)

  All-filter_keys :
      (p : String → Bool) (Q : String → Type 0) (m : BTreeMap V)
      → All Q (keys m)
      → All Q (keys (filter_keys p m))
  unfolding keys filter_keys
  All-filter_keys p Q [] h = tt
  All-filter_keys p Q ((k, v) ∷ m) (q, h) = elim (Bool-cases (p k)) [
    | inl e ↦ rw e (q, All-filter_keys p Q m h)
    | inr e ↦ rw e (All-filter_keys p Q m h)
  ]

  pub filter_keys-IsSorted :
      (p : String → Bool) (m : BTreeMap V) → IsSorted m → IsSorted (filter_keys p m)
  unfolding keys filter_keys
  filter_keys-IsSorted p [] h = tt
  filter_keys-IsSorted p ((k, v) ∷ m) (b, h) = elim (Bool-cases (p k)) [
    | inl e ↦ rw e (All-filter_keys p (Before k) m b, filter_keys-IsSorted p m h)
    | inr e ↦ rw e (filter_keys-IsSorted p m h)
  ]

pub set_of-IsSorted : (xs : List String) → IsSorted (set_of xs)
unfolding set_of keys
set_of-IsSorted [] = tt
set_of-IsSorted (x ∷ xs) = insert-IsSorted x tt (set_of xs) (set_of-IsSorted xs)

pub mem-set_of_iff :
    (a : String) (xs : List String) → Any (λ x. x ≡ a) (keys (set_of xs)) ↔ Any (λ x. x ≡ a) xs
unfolding set_of keys
mem-set_of_iff a [] = (λ h. h, λ h. h)
mem-set_of_iff a (x ∷ xs) =
    ground (arith, mem-keys-insert_iff a x tt (set_of xs), mem-set_of_iff a xs)
