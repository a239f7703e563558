-- ===== src/Spec/Disk.antt =====
-- core/src/spec.rs: the size of an instance's disk, from `deploy.disk_gb` and `build.resize`.
pub mod Sizes
mod Examples
use Prim.Native.String
use mathlib.Core.Option.{get_or}
use confidential_agent.Common.{
  ℕ, ◌+◌, ◌-◌, ◌*◌, ◌/◌, ◌^◌, String, Bool, not, ◌&&◌, ◌||◌, Option, none, some, ltb, leb, ◌==◌,
  nat_eq, if◌then◌else◌, is_digit, nat_eqb, Field, Problem, Result, ok, ◌>>=◌, ◌>>◌, ensure,
  context,
}
use confidential_agent.Common.Text.{
  empty_text, byte_len, is_empty, all_chars, trim, span, split_once, lower_eq, parse_unsigned,
}
use confidential_agent.Spec.Types.{AgentSpec}

abbrev pub u32_max : ℕ
u32_max = 2 ^ 32 - 1

abbrev pub u128_max : ℕ
u128_max = 2 ^ 128 - 1

-- A computation in `uN` that must not overflow.
abbrev pub checked : ℕ → ℕ → Option ℕ
checked max n = if leb n max then some n else none

abbrev pub resize_field : Field
resize_field = Field.name "build.resize"

-- The match on the unit, in lower case.
unfoldable pub unit_multiplier : String → Option ℕ
unit_multiplier unit =
    if lower_eq unit "" || lower_eq unit "b"
    then some 1
    else if lower_eq unit "k" || lower_eq unit "kb"
    then some 1_000
    else if lower_eq unit "m" || lower_eq unit "mb"
    then some 1_000_000
    else if lower_eq unit "g" || lower_eq unit "gb"
    then some 1_000_000_000
    else if lower_eq unit "t" || lower_eq unit "tb"
    then some 1_000_000_000_000
    else if lower_eq unit "ki" || lower_eq unit "kib"
    then some 1_024
    else if lower_eq unit "mi" || lower_eq unit "mib"
    then some (1_024 ^ 2)
    else if lower_eq unit "gi" || lower_eq unit "gib"
    then some (1_024 ^ 3)
    else if lower_eq unit "ti" || lower_eq unit "tib"
    then some (1_024 ^ 4)
    else none

abbrev pub gib : ℕ
gib = 1_024 ^ 3

abbrev pub in_number : ℕ → Bool
in_number c = is_digit c || nat_eqb c b'.'

-- `number.split_once('.').unwrap_or((number, ""))`
unfoldable pub parts_of_number : String → String × String
parts_of_number number = get_or (split_once b'.' number) (number, empty_text)

-- The digits of a size and its multiplier, as a count of bytes.
unfoldable pub size_bytes : String → String → ℕ → Result ℕ
size_bytes whole fraction multiplier = do
  numerator ←
      context (parse_unsigned u128_max (String.◌++◌ whole fraction)) resize_field Problem.too_large
  places ← context (checked u32_max (byte_len fraction)) resize_field Problem.too_large
  denominator ← context (checked u128_max (10 ^ places)) resize_field Problem.too_large
  product ← context (checked u128_max (numerator * multiplier)) resize_field Problem.too_large
  ok (product / denominator)

-- A count of bytes in GiB, rounded up.
unfoldable pub ceil_gib : ℕ → Result ℕ
ceil_gib bytes = do
  ensure (ltb 0 bytes) resize_field Problem.zero_value
  sum ← context (checked u128_max (bytes + (gib - 1))) resize_field Problem.too_large
  context (checked u32_max (sum / gib)) resize_field Problem.too_large

unfoldable pub configured_image_disk_gb : String → Result ℕ
configured_image_disk_gb input = do
  let value = trim input
  let (number, unit) = span in_number value
  multiplier ← context (unit_multiplier (trim unit)) resize_field Problem.unsupported
  let (whole, fraction) = parts_of_number number
  ensure
      (not (is_empty whole && is_empty fraction)
        && all_chars is_digit whole
        && all_chars is_digit fraction)
      resize_field Problem.syntax
  bytes ← size_bytes whole fraction multiplier
  ceil_gib bytes

abbrev pub default_deploy_disk_gb : ℕ
default_deploy_disk_gb = 32

abbrev pub disk_field : Field
disk_field = Field.name "deploy.disk_gb"

-- `resize.map(configured_image_disk_gb).transpose()?.unwrap_or(0)`
unfoldable pub image_minimum : Option String → Result ℕ
image_minimum none = ok 0
image_minimum (some resize) = configured_image_disk_gb resize

-- The choice between the configured size and the default.
unfoldable pub choose_disk_gb : Option ℕ → ℕ → Result ℕ
choose_disk_gb (some size) minimum = do
  ensure (leb 20 size) disk_field Problem.too_small
  ensure (leb minimum size) disk_field Problem.too_small
  ok size
choose_disk_gb none minimum =
    ok (if leb default_deploy_disk_gb minimum then minimum else default_deploy_disk_gb)

unfoldable pub deployment_disk_gb : AgentSpec → Result ℕ
deployment_disk_gb spec = do
  minimum ← image_minimum spec.build.resize
  choose_disk_gb spec.deploy.disk_gb minimum
