-- ===== src/Common/Fallible.antt =====
-- `anyhow::Result` and its `?`: an error is the field that the message names and what is wrong.
use Prim.Native.Nat.{ℕ}
use Prim.Native.String.{String}
use mathlib.Core.Path.{◌≡◌, refl}
use mathlib.Core.Logic.{◌↔◌, ◌⊎◌, inl, inr}
use mathlib.Core.Bool.{Bool, true, false}
use mathlib.Core.Option.{Option, none, some}
use mathlib.Core.List.{List, [], ◌∷◌}
use confidential_agent.Common.Lists.{All}

-- The field of a message: a name, or `list[index].part`.
pub data Field : Type 0 where
  name : String → Field
  item : String → ℕ → String → Field
  item_item : String → ℕ → String → ℕ → Field

pub data Problem : Type 0 where
  empty charset duplicate zero_value version unlisted conflict : Problem
  syntax too_long too_large too_small reserved required unsupported relative : Problem

pub data Error : Type 0 where
  bad : Field → Problem → Error

pub data Result {ℓ} (A : Type ℓ) : Type ℓ where
  err : Error → Result A
  ok : A → Result A

infixl 5 ◌>>=◌ ◌>>◌
abbrev pub ◌>>=◌ {ℓ ν} : {T : Type ℓ} {U : Type ν} → Result T → (T → Result U) → Result U
err problem >>= next = err problem
ok value >>= next = next value

abbrev pub ◌>>◌ {ℓ} : {U : Type ℓ} → Result (Unit {0}) → Result U → Result U
check >> next = check >>= λ passed. next

-- `if test { bail!(…) }`
abbrev pub bail_if : Bool → Field → Problem → Result (Unit {0})
bail_if true f p = err (bad f p)
bail_if false f p = ok tt

-- `ensure!(test, …)`
abbrev pub ensure : Bool → Field → Problem → Result (Unit {0})
ensure true f p = ok tt
ensure false f p = err (bad f p)

-- `opt.context(…)?`
abbrev pub context {ℓ} : {A : Type ℓ} → Option A → Field → Problem → Result A
context (some a) f p = ok a
context none f p = err (bad f p)

-- `if let Some(x) = opt { check(x)? }`
abbrev pub when_some {ℓ} : {A : Type ℓ} → (A → Result (Unit {0})) → Option A → Result (Unit {0})
when_some check none = ok tt
when_some check (some a) = check a

-- A loop that only checks its items, with the index of `enumerate`.
module _ {ℓ} {A : Type ℓ} (check : ℕ → A → Result (Unit {0})) where
  unfoldable pub for_each : ℕ → List A → Result (Unit {0})
  for_each i [] = ok tt
  for_each i (x ∷ xs) = do check i x; for_each (ℕ.suc i) xs

-- Inversion and introduction of a chain's success, one step at a time.
module _ {ℓ κ} {A : Type ℓ} {B : Type κ} where
  pub bind-eq-ok :
      (m : Result A) (k : A → Result B) {b : B}
      → (m >>= k) ≡ ok b
      → (a : A) × (m ≡ ok a) × (k a ≡ ok b)
  bind-eq-ok (ok a) k h = (a, refl, h)
  bind-eq-ok (err e) k h = cc

  pub context-bind :
      (o : Option A) (f : Field) (p : Problem) (k : A → Result B) {b : B}
      → (context o f p >>= k) ≡ ok b
      → (a : A) × (o ≡ some a) × (k a ≡ ok b)
  context-bind none f p k h = cc
  context-bind (some a) f p k h = (a, refl, h)

module _ {ℓ} {B : Type ℓ} where
  pub seq-eq-ok_iff :
      (m : Result (Unit {0})) (k : Result B) {b : B}
      → ((m >> k) ≡ ok b) ↔ ((m ≡ ok tt) × (k ≡ ok b))
  seq-eq-ok_iff (ok tt) k = (λ h. (refl, h), λ h. h.1)
  seq-eq-ok_iff (err e) k = (λ h. cc, λ h. cc (h.0))

pub bail_if-eq-ok_iff : (t : Bool) (f : Field) (p : Problem) → (bail_if t f p ≡ ok tt) ↔ (t ≡ false)
bail_if-eq-ok_iff true f p = (λ h. cc, λ h. cc)
bail_if-eq-ok_iff false f p = (λ h. refl, λ h. refl)

pub ensure-eq-ok_iff : (t : Bool) (f : Field) (p : Problem) → (ensure t f p ≡ ok tt) ↔ (t ≡ true)
ensure-eq-ok_iff true f p = (λ h. refl, λ h. refl)
ensure-eq-ok_iff false f p = (λ h. cc, λ h. cc)

-- What holds of the value, if there is one.
abbrev pub WhenSome {ℓ κ} : {A : Type ℓ} → (A → Type κ) → Option A → Type κ
WhenSome P none = Unit
WhenSome P (some a) = P a

pub when_some-eq-ok_iff {ℓ κ} :
    {A : Type ℓ} (P : A → Type κ) (check : A → Result (Unit {0}))
    → ((a : A) → (check a ≡ ok tt) ↔ P a)
    → (o : Option A) → (when_some check o ≡ ok tt) ↔ WhenSome P o
when_some-eq-ok_iff P check each none = (λ h. tt, λ h. refl)
when_some-eq-ok_iff P check each (some a) = each a

-- A loop of checks succeeds exactly if each check does.
pub for_each-eq-ok_iff {ℓ κ} :
    {A : Type ℓ} (P : A → Type κ) (check : ℕ → A → Result (Unit {0}))
    → ((i : ℕ) (a : A) → (check i a ≡ ok tt) ↔ P a)
    → (i : ℕ) (xs : List A) → (for_each check i xs ≡ ok tt) ↔ All P xs
unfolding for_each
for_each-eq-ok_iff P check each i [] = (λ h. tt, λ h. refl)
for_each-eq-ok_iff P check each i (x ∷ xs) =
    let (to, from) = for_each-eq-ok_iff P check each (ℕ.suc i) xs in
    let (split, join) = seq-eq-ok_iff (check i x) (for_each check (ℕ.suc i) xs) in
    (λ h. ((each i x).0 (split h).0, to (split h).1), λ h. join ((each i x).1 h.0, from h.1))

pub ok_injective {ℓ} : {A : Type ℓ} {a b : A} → ok a ≡ ok b → a ≡ b
ok_injective h = cc

pub Result-cases {ℓ} :
    {A : Type ℓ} (r : Result A) → ((a : A) × (r ≡ ok a)) ⊎ ((e : Error) × (r ≡ err e))
Result-cases (ok a) = inl (a, refl)
Result-cases (err e) = inr (e, refl)
