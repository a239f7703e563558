-- ===== src/Net/Bits.antt =====
-- A mask of high bits as a division: `x & (2^w - 2^k)` is `x` with its last k bits cleared.
use Prim.Native.Nat.{min, bit_and, digits, bit_and-bitwise}
use native.Mathlib.Nat.{
  pow-suc, pow-succ', div-div-eq-div-mul, mul_assoc, mul-div_cancel, one-le-pow,
}
use mathlib.Core.Path.{◌≡⟨◌⟩◌, ◌∎}
use Prim.Native.Nat.add
use confidential_agent.Common.{
  ℕ, zero, suc, ◌+◌, ◌*◌, ◌/◌, ◌%◌, ◌^◌, ◌≤◌, ◌<◌, ◌≡◌, ◌↔◌, refl, sym, ap, ◌∙◌, arith,
}

abbrev and_rounds : ℕ → ℕ → ℕ → ℕ
and_rounds n a b = digits (λ b. zero) min n a b

and_rounds_enough : (n m a b : ℕ) → a ≤ n → a ≤ m → and_rounds n a b ≡ and_rounds m a b
and_rounds_enough zero zero a b p q = refl
and_rounds_enough zero (suc m) zero b p q = refl
and_rounds_enough zero (suc m) (suc a) b p q = absurd (omega arith)
and_rounds_enough (suc n) zero zero b p q = refl
and_rounds_enough (suc n) zero (suc a) b p q = absurd (omega arith)
and_rounds_enough (suc n) (suc m) zero b p q = refl
and_rounds_enough (suc n) (suc m) (suc a) b p q =
    omega (arith, and_rounds_enough n m (suc a / 2) (b / 2) (omega arith) (omega arith))

-- The last bit of a conjunction, and the bits above it.
pub bit_and-halves : (a b : ℕ) → bit_and a b ≡ bit_and (a / 2) (b / 2) * 2 + min (a % 2) (b % 2)
bit_and-halves zero b = omega (arith, bit_and-bitwise 0 b, bit_and-bitwise 0 (b / 2))
bit_and-halves (suc a) b = omega (
  arith,
  bit_and-bitwise (suc a) b,
  bit_and-bitwise (suc a / 2) (b / 2),
  and_rounds_enough a (suc a / 2) (suc a / 2) (b / 2) (omega arith) (omega arith),
)

-- The mask of the bits from k up to k + n.
unfoldable pub high_mask : ℕ → ℕ → ℕ
high_mask zero zero = 0
high_mask zero (suc n) = high_mask zero n * 2 + 1
high_mask (suc k) n = high_mask k n * 2

-- Clearing the last k bits, by halving and doubling.
pub clear : ℕ → ℕ → ℕ
clear zero x = x
clear (suc k) x = clear k (x / 2) * 2

pow_double : (n : ℕ) → 2 ^ suc n ≡ 2 ^ n * 2
pow_double n = pow-suc 2 n

bit_and-ones : (n x : ℕ) → x < 2 ^ n → bit_and x (high_mask zero n) ≡ x
unfolding high_mask
bit_and-ones zero zero h = refl
bit_and-ones zero (suc x) h = absurd (omega arith)
bit_and-ones (suc n) x h =
    let ih = bit_and-ones n (x / 2) (omega (arith, pow_double n)) in
    rw (bit_and-halves x (high_mask zero n * 2 + 1)) (rw half (omega (arith, ih)))
  where
    half : (high_mask zero n * 2 + 1) / 2 ≡ high_mask zero n
    half = omega arith

pow_double_add : (k n : ℕ) → 2 ^ (suc k + n) ≡ 2 ^ (k + n) * 2
pow_double_add k n = rw (add.suc k n) (pow-suc 2 (k + n))

pow_double_add_right : (k n : ℕ) → 2 ^ (k + suc n) ≡ 2 ^ (k + n) * 2
pow_double_add_right k n = let e : k + suc n ≡ suc (k + n) = omega arith in rw e (pow-suc 2 (k + n))

-- A mask clears the bits below it and keeps the others.
pub bit_and-high_mask : (k n x : ℕ) → x < 2 ^ (k + n) → bit_and x (high_mask k n) ≡ clear k x
unfolding high_mask clear
bit_and-high_mask zero n x h = let h' : x < 2 ^ n = rw (add.zero n) at h in bit_and-ones n x h'
bit_and-high_mask (suc k) n x h =
    let ih = bit_and-high_mask k n (x / 2) (omega (arith, pow_double_add k n)) in
    rw (bit_and-halves x (high_mask k n * 2)) (rw half (omega (arith, ih)))
  where
    half : high_mask k n * 2 / 2 ≡ high_mask k n
    half = omega arith

pub high_mask-value : (k n : ℕ) → high_mask k n + 2 ^ k ≡ 2 ^ (k + n)
unfolding high_mask
high_mask-value zero zero = refl
high_mask-value zero (suc n) = omega (arith, high_mask-value zero n, pow_double_add_right zero n)
high_mask-value (suc k) n = omega (arith, high_mask-value k n, pow_double_add k n, pow_double k)

clear-eq-mul : (k x : ℕ) → clear k x ≡ x / 2 ^ k * 2 ^ k
unfolding clear
clear-eq-mul zero x = omega arith
clear-eq-mul (suc k) x =
    let same : x / 2 / 2 ^ k ≡ x / 2 ^ suc k =
      div-div-eq-div-mul x 2 (2 ^ k) ∙ ap (λ m. x / m) (sym (pow-succ' 2 k)) in
    clear k (x / 2) * 2
    ≡⟨ ap (λ y. y * 2) (clear-eq-mul k (x / 2)) ⟩ x / 2 / 2 ^ k * 2 ^ k * 2
    ≡⟨ ap (λ y. y * 2 ^ k * 2) same ⟩ x / 2 ^ suc k * 2 ^ k * 2
    ≡⟨ mul_assoc (x / 2 ^ suc k) (2 ^ k) 2 ⟩ x / 2 ^ suc k * (2 ^ k * 2)
    ≡⟨ ap (λ m. x / 2 ^ suc k * m) (sym (pow-suc 2 k)) ⟩ x / 2 ^ suc k * 2 ^ suc k ∎

pow_pos : (k : ℕ) → 0 < 2 ^ k
pow_pos k = one-le-pow k 2 (omega arith)

-- Two words agree under a mask of high bits exactly when their high bits agree.
pub eq_high_bits_iff :
    (k n x y : ℕ)
    → x < 2 ^ (k + n)
    → y < 2 ^ (k + n)
    → (bit_and x (high_mask k n) ≡ bit_and y (high_mask k n)) ↔ (x / 2 ^ k ≡ y / 2 ^ k)
eq_high_bits_iff k n x y hx hy =
    let ex = bit_and-high_mask k n x hx ∙ clear-eq-mul k x in
    let ey = bit_and-high_mask k n y hy ∙ clear-eq-mul k y in
    (
      λ e.
          sym (mul-div_cancel (x / 2 ^ k) (pow_pos k))
          ∙ ap (λ t. t / 2 ^ k) (sym ex ∙ e ∙ ey)
          ∙ mul-div_cancel (y / 2 ^ k) (pow_pos k),
      λ e. ex ∙ ap (λ q. q * 2 ^ k) e ∙ sym ey,
    )
