-- ===== src/Spec/Disk/Sizes.antt =====
-- The disk that is chosen, the image, and the rounding of sizes.
use Prim.Native.String
use confidential_agent.Common.{
  ℕ, ◌+◌, ◌-◌, ◌*◌, ◌/◌, ◌^◌, ◌≤◌, ◌<◌, ◌≡◌, sym, ap, ap₂, ◌∙◌, String, Option, none, some, arith,
  ltb, Problem, Result, ok, ◌>>=◌, ensure, context-bind, bind-eq-ok, seq-eq-ok_iff, ok_injective,
  WhenSome,
}
use confidential_agent.Common.Text.{byte_len, trim, span, parse_unsigned}
use confidential_agent.Spec.Types.{AgentSpec}
use confidential_agent.Spec.Disk.{
  u32_max, u128_max, checked, resize_field, unit_multiplier, gib, in_number, parts_of_number,
  size_bytes, ceil_gib, configured_image_disk_gb, default_deploy_disk_gb, image_minimum,
  choose_disk_gb, deployment_disk_gb,
}

-- `input` is a decimal number, its fraction any number of digits, and a unit; together they stand
-- for so many bytes, rounded down.
pub record IsSize (input : String) (bytes : ℕ) : Type 0 where
  pub multiplier : ℕ
  pub numerator : ℕ
  pub unit : unit_multiplier (trim (span in_number (trim input)).1) ≡ some multiplier
  pub digits :
      parse_unsigned u128_max (
        String.◌++◌
          (parts_of_number (span in_number (trim input)).0).0
          (parts_of_number (span in_number (trim input)).0).1)
      ≡ some numerator
  pub value :
      bytes
      ≡ numerator * multiplier / 10 ^ byte_len (parts_of_number (span in_number (trim input)).0).1

checked-eq-some : (max n : ℕ) {m : ℕ} → checked max n ≡ some m → (n ≡ m) × (m ≤ max)
checked-eq-some max n h = ground arith

size_bytes_lem :
    (whole fraction : String) (multiplier bytes : ℕ)
    → size_bytes whole fraction multiplier ≡ ok bytes
    → (n : ℕ) × (parse_unsigned u128_max (String.◌++◌ whole fraction) ≡ some n)
      × (bytes ≡ n * multiplier / 10 ^ byte_len fraction)
unfolding size_bytes
size_bytes_lem whole fraction multiplier bytes h =
    let (n, read, h₁) =
      context-bind (parse_unsigned u128_max (String.◌++◌ whole fraction)) _ _ _ h in
    let (places, counted, h₂) = context-bind (checked u32_max (byte_len fraction)) _ _ _ h₁ in
    let (denominator, power, h₃) = context-bind (checked u128_max (10 ^ places)) _ _ _ h₂ in
    let (product, times, h₄) = context-bind (checked u128_max (n * multiplier)) _ _ _ h₃ in
    let e₁ = (checked-eq-some u32_max (byte_len fraction) counted).0 in
    let e₂ = (checked-eq-some u128_max (10 ^ places) power).0 in
    let e₃ = (checked-eq-some u128_max (n * multiplier) times).0 in
    (n, read, sym (ok_injective h₄) ∙ ap₂ ◌/◌ (sym e₃) (sym e₂ ∙ ap (λ p. 10 ^ p) (sym e₁)))

ceil_bounds :
    (bytes sum size : ℕ)
    → 0 < bytes
    → bytes + (gib - 1) ≡ sum
    → sum / gib ≡ size
    → size ≤ u32_max
    → (bytes ≤ size * gib) × (size * gib < bytes + gib) × (size ≤ u32_max) × (0 < size)
ceil_bounds bytes sum size h e q fits = omega arith

-- Rounding up: the least number of GiB that holds the bytes.
ceil_gib_lem :
    (bytes size : ℕ)
    → ceil_gib bytes ≡ ok size
    → (bytes ≤ size * gib) × (size * gib < bytes + gib) × (size ≤ u32_max) × (0 < size)
unfolding ceil_gib
ceil_gib_lem bytes size h =
    let (filled, h₁) =
      (seq-eq-ok_iff (ensure (ltb 0 bytes) resize_field Problem.zero_value) _).0 h in
    let (sum, added, h₂) = context-bind (checked u128_max (bytes + (gib - 1))) _ _ _ h₁ in
    let (quotient, divided, same) =
      context-bind (checked u32_max (sum / gib)) resize_field Problem.too_large ok (to_bind h₂) in
    ceil_bounds bytes sum size (positive filled)
      (checked-eq-some u128_max (bytes + (gib - 1)) added).0
      ((checked-eq-some u32_max (sum / gib) divided).0 ∙ ok_injective same)
      (rw (ok_injective same) at ((checked-eq-some u32_max (sum / gib) divided).1))
  where
    positive : ensure (ltb 0 bytes) resize_field Problem.zero_value ≡ ok tt → 0 < bytes
    positive e = ground arith

    to_bind : {r : Result ℕ} {n : ℕ} → r ≡ ok n → (r >>= ok) ≡ ok n
    to_bind e = rw e

-- A size that is accepted is positive, fits 32 bits, and is the least number of GiB that holds the
-- bytes that the text stands for.
pub configured_image_disk_gb_lem :
    (input : String) (size : ℕ)
    → configured_image_disk_gb input ≡ ok size
    → (bytes : ℕ) × IsSize input bytes
      × (bytes ≤ size * gib)
      × (size * gib < bytes + gib)
      × (0 < size)
      × (size ≤ u32_max)
unfolding configured_image_disk_gb
configured_image_disk_gb_lem input size h =
    let (multiplier, unit, h₁) =
      context-bind (unit_multiplier (trim (span in_number (trim input)).1)) _ _ _ h in
    let h₂ = ((seq-eq-ok_iff (ensure _ resize_field Problem.syntax) _).0 h₁).1 in
    let (bytes, counted, h₃) = bind-eq-ok (size_bytes _ _ multiplier) ceil_gib h₂ in
    let (numerator, digits, value) = size_bytes_lem _ _ multiplier bytes counted in
    let (holds, least, fits, positive) = ceil_gib_lem bytes size h₃ in
    (
      bytes,
      record {
        multiplier = multiplier;
        numerator = numerator;
        unit = unit;
        digits = digits;
        value = value;
      },
      holds,
      least,
      positive,
      fits,
    )

-- The image's least disk, where `build.resize` sets one.
abbrev pub Holds : ℕ → Option String → Type 0
Holds size resize =
    WhenSome (λ input. (bytes : ℕ) × IsSize input bytes × (bytes ≤ size * gib)) resize

image_minimum_lem :
    (resize : Option String) (minimum size : ℕ)
    → image_minimum resize ≡ ok minimum
    → minimum ≤ size
    → Holds size resize
unfolding image_minimum
image_minimum_lem none minimum size h k = tt
image_minimum_lem (some input) minimum size h k =
    let (bytes, meant, fits, _, _, _) = configured_image_disk_gb_lem input minimum h in
    (bytes, meant, omega arith)

choose_disk_gb_lem :
    (chosen : Option ℕ) (minimum size : ℕ)
    → choose_disk_gb chosen minimum ≡ ok size
    → (minimum ≤ size)
      × (20 ≤ size)
      × WhenSome (λ d. size ≡ d) chosen
      × ((chosen ≡ none) → default_deploy_disk_gb ≤ size)
unfolding choose_disk_gb
choose_disk_gb_lem none minimum size h = ground arith
choose_disk_gb_lem (some d) minimum size h = ground arith

-- A disk that is chosen holds the image that `build.resize` asks for, has at least 20 GiB, is the
-- one that `deploy.disk_gb` sets, and is at least the default where that sets none.
pub deployment_disk_gb_lem :
    (spec : AgentSpec) (size : ℕ)
    → deployment_disk_gb spec ≡ ok size
    → Holds size spec.build.resize
      × (20 ≤ size)
      × WhenSome (λ d. size ≡ d) spec.deploy.disk_gb
      × ((spec.deploy.disk_gb ≡ none) → default_deploy_disk_gb ≤ size)
unfolding deployment_disk_gb
deployment_disk_gb_lem spec size h =
    let (minimum, least, h₁) = bind-eq-ok (image_minimum spec.build.resize) _ h in
    let (above, twenty, chosen, default) = choose_disk_gb_lem spec.deploy.disk_gb minimum size h₁ in
    (image_minimum_lem spec.build.resize minimum size least above, twenty, chosen, default)
