-- ===== src/Common/Lists.antt =====
-- Lists over the native numbers, the sets in which the loops remember what they have seen, and
-- what it means that a list repeats nothing.
use Prim.Native.Nat.{ℕ, zero, suc, ◌+◌}
use mathlib.Core.Path.{◌≡◌, refl}
use mathlib.Core.Logic.{◌⊎◌, ◌↔◌, ◌≢◌}
use mathlib.Core.Bool.{Bool, true, false, not, ◌&&◌, ◌||◌}
use mathlib.Core.List.{List, [], ◌∷◌, ◌++◌}
use native.Mathlib.Omega.{arith}
use confidential_agent.Common.Tests.{Eq, ◌==◌}

module _ {ℓ} {A : Type ℓ} where
  abbrev pub length : List A → ℕ
  length [] = 0
  length (x ∷ xs) = suc (length xs)

  abbrev pub is_empty : List A → Bool
  is_empty [] = true
  is_empty (x ∷ xs) = false

  abbrev pub all : (A → Bool) → List A → Bool
  all p [] = true
  all p (x ∷ xs) = p x && all p xs

  abbrev pub any : (A → Bool) → List A → Bool
  any p [] = false
  any p (x ∷ xs) = p x || any p xs

module _ {ℓ} {A : Type ℓ} where
  abbrev pub take : ℕ → List A → List A
  take zero xs = []
  take (suc n) [] = []
  take (suc n) (x ∷ xs) = x ∷ take n xs

  abbrev pub drop : ℕ → List A → List A
  drop zero xs = xs
  drop (suc n) [] = []
  drop (suc n) (x ∷ xs) = drop n xs

  pub length-append : (xs ys : List A) → length (xs ++ ys) ≡ length xs + length ys
  length-append [] ys = omega arith
  length-append (x ∷ xs) ys = omega (arith, length-append xs ys)

module _ {ℓ κ} {A : Type ℓ} (P : A → Type κ) where
  abbrev pub All : List A → Type κ
  All [] = Unit
  All (x ∷ xs) = P x × All xs

-- There is a member with `P`.
abbrev pub Any : {A : Type 0} → (A → Type 0) → List A → Type 0
Any P [] = ⊥
Any P (x ∷ xs) = P x ⊎ Any P xs

module _ {ℓ κ μ} {A : Type ℓ} (P : A → Type κ) (Q : A → Type μ) where
  pub All-map : ((a : A) → P a → Q a) → (xs : List A) → All P xs → All Q xs
  All-map f [] h = tt
  All-map f (x ∷ xs) (p, h) = (f x p, All-map f xs h)

  pub All-zip : (xs : List A) → All P xs → All Q xs → All (λ x. P x × Q x) xs
  All-zip [] h k = tt
  All-zip (x ∷ xs) (p, h) (q, k) = ((p, q), All-zip xs h k)

-- No two members are equal.
abbrev pub Distinct {ℓ} : {A : Type ℓ} → List A → Type ℓ
Distinct [] = Unit
Distinct (x ∷ xs) = All (λ y. x ≢ y) xs × Distinct xs

module _ {A : Type 0} ⦃e : Eq A⦄ where
  unfoldable pub contains : List A → A → Bool
  contains [] a = false
  contains (x ∷ xs) a = x == a || contains xs a

  -- Each item is inserted into the set of those before it, and `insert` never answers `false`.
  unfoldable pub distinct_from : List A → List A → Bool
  distinct_from seen [] = true
  distinct_from seen (x ∷ xs) = not (contains seen x) && distinct_from (x ∷ seen) xs

  pub contains_iff : (xs : List A) (a : A) → (contains xs a ≡ true) ↔ Any (λ x. x ≡ a) xs
  unfolding contains
  contains_iff [] a = (λ h. cc, λ h. absurd h)
  contains_iff (x ∷ xs) a = ground (arith, e.beq_iff x a, contains_iff xs a)

  contains-eq-false-cons_iff :
      (xs : List A) (x a : A) → (contains (x ∷ xs) a ≡ false) ↔ ((x ≢ a) × (contains xs a ≡ false))
  unfolding contains
  contains-eq-false-cons_iff xs x a =
      (λ h. (λ p. ground (arith, e.beq_iff x a), ground arith), λ h. ground (arith, e.beq_iff x a))

  all-contains-cons_iff :
      (seen : List A) (x : A) (ys : List A)
      → All (λ y. contains (x ∷ seen) y ≡ false) ys
        ↔ (All (λ y. x ≢ y) ys × All (λ y. contains seen y ≡ false) ys)
  all-contains-cons_iff seen x [] = (λ h. (tt, tt), λ h. tt)
  all-contains-cons_iff seen x (y ∷ ys) =
      let (to, from) = contains-eq-false-cons_iff seen x y in
      let (more, less) = all-contains-cons_iff seen x ys in
      (
        λ h. (((to h.0).0, (more h.1).0), ((to h.0).1, (more h.1).1)),
        λ h. (from (h.0.0, h.1.0), less (h.0.1, h.1.1)),
      )

  -- The loop's test says that the list repeats nothing and meets nothing seen before it.
  pub distinct_from_iff :
      (seen xs : List A)
      → (distinct_from seen xs ≡ true) ↔ (Distinct xs × All (λ x. contains seen x ≡ false) xs)
  unfolding distinct_from
  distinct_from_iff seen [] = (λ h. (tt, tt), λ h. refl)
  distinct_from_iff seen (x ∷ xs) =
      let (to, from) = distinct_from_iff (x ∷ seen) xs in
      let (more, less) = all-contains-cons_iff seen x xs in
      (
        λ h. let d = to (ground arith) in ((((more d.1).0), d.0), (ground arith, (more d.1).1)),
        λ h. ground (arith, from (h.0.1, less (h.0.0, h.1.1))),
      )

  all-contains-nil : (xs : List A) → All (λ x. contains [] x ≡ false) xs
  unfolding contains
  all-contains-nil [] = tt
  all-contains-nil (x ∷ xs) = (refl, all-contains-nil xs)

  pub distinct_from-nil_iff : (xs : List A) → (distinct_from [] xs ≡ true) ↔ Distinct xs
  distinct_from-nil_iff xs =
      let (to, from) = distinct_from_iff [] xs in
      (λ h. (to h).0, λ d. from (d, all-contains-nil xs))
