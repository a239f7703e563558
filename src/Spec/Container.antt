-- ===== src/Spec/Container.antt =====
-- core/src/spec.rs: the container that an image runs, with its mounts.
pub mod Validity
use confidential_agent.Common.{
  ℕ, suc, String, Bool, true, false, not, ◌&&◌, ◌||◌, Option, none, some, List, [], ◌∷◌, any,
  is_empty, ltb, nat_eqb, ◌==◌, string_eq, Eq, ◌↔◌, ◌≡◌, arith, if◌then◌else◌, contains, is_digit,
  is_alphanumeric, Field, Problem, Result, ok, ◌>>=◌, ◌>>◌, bail_if, when_some, for_each,
}
use confidential_agent.Common.Text
use confidential_agent.Common.Text.{
  trim, all_chars, any_char, first_is, byte_len, contains_char, starts_with, trim_end_matches,
}
use confidential_agent.Common.BTree.{BTreeMap, keys}
use confidential_agent.Spec.Types.{
  BuildContainerSpec, ContainerMountSpec, ContainerMode, ContainerPullPolicy, runtime, rootfs,
  missing, always, never,
}
use confidential_agent.Spec.Paths.{
  Component, root_dir, cur_dir, parent_dir, normal, is_absolute, components,
}

abbrev pub pull_is_missing : ContainerPullPolicy → Bool
pull_is_missing missing = true
pull_is_missing _ = false

abbrev pub mode_is_rootfs : ContainerMode → Bool
mode_is_rootfs rootfs = true
mode_is_rootfs runtime = false

abbrev pub option_is_some {ℓ} : {A : Type ℓ} → Option A → Bool
option_is_some none = false
option_is_some (some a) = true

abbrev pub container_field : String → Field
container_field part = Field.name part

abbrev pub is_name_char : ℕ → Bool
is_name_char c = is_alphanumeric c || nat_eqb c b'.' || nat_eqb c b'_' || nat_eqb c b'-'

abbrev pub is_env_char : ℕ → Bool
is_env_char c = nat_eqb c b'_' || is_alphanumeric c

unfoldable pub validate_container_name : String → Result (Unit {0})
validate_container_name name = do
  bail_if (Text.is_empty (trim name)) (container_field "name") Problem.empty
  bail_if (ltb 64 (byte_len name)) (container_field "name") Problem.too_long
  bail_if (not (all_chars is_name_char name)) (container_field "name") Problem.charset

unfoldable pub validate_env_key : ℕ → String → Result (Unit {0})
validate_env_key i key =
    bail_if (Text.is_empty (trim key) || first_is is_digit key || not (all_chars is_env_char key))
      (container_field "env") Problem.charset

unfoldable pub comparable_mount_path : String → String
comparable_mount_path value =
    let trimmed = trim_end_matches (λ c. nat_eqb c b'/') value in
    if Text.is_empty trimmed then "/" else trimmed

-- `ParentDir | CurDir | Prefix(_)`; there are no prefixes on Unix.
abbrev pub is_relative_component : Component → Bool
is_relative_component root_dir = false
is_relative_component cur_dir = true
is_relative_component parent_dir = true
is_relative_component (normal s) = false

unfoldable pub validate_container_mount_path : Field → String → Result (Unit {0})
validate_container_mount_path field value = do
  bail_if (Text.is_empty (trim value)) field Problem.empty
  bail_if (any_char (λ c. ltb c 0x20) value) field Problem.charset
  bail_if (not (is_absolute value)) field Problem.relative
  bail_if (any is_relative_component (components value)) field Problem.syntax

abbrev pub mount_field : ℕ → String → Field
mount_field index part = Field.item "build.container.mounts" index part

abbrev pub has_delimiter : String → Bool
has_delimiter s = contains_char b':' s || contains_char b',' s

-- The loop over the mounts; `mount_targets` holds the targets before.
unfoldable pub validate_mounts : ℕ → List String → List ContainerMountSpec → Result (Unit {0})
validate_mounts index mount_targets [] = ok tt
validate_mounts index mount_targets (mount ∷ mounts) = do
  validate_container_mount_path (mount_field index "source") mount.source
  validate_container_mount_path (mount_field index "target") mount.target
  bail_if (has_delimiter mount.source || has_delimiter mount.target) (mount_field index "")
      Problem.charset
  bail_if (contains mount_targets (comparable_mount_path mount.target)) (mount_field index "target")
      Problem.duplicate
  validate_mounts (suc index) (comparable_mount_path mount.target ∷ mount_targets) mounts

abbrev pub is_blank : Option String → Bool
is_blank none = false
is_blank (some s) = Text.is_empty (trim s)

abbrev pub is_relative : Option String → Bool
is_relative none = false
is_relative (some s) = not (starts_with b'/' s)

unfoldable pub validate_build_container : BuildContainerSpec → Result (Unit {0})
validate_build_container container = do
  bail_if (is_blank container.image) (container_field "image") Problem.empty
  bail_if (not (option_is_some container.image) && not (option_is_some container.archive))
      (container_field "image") Problem.required
  bail_if (option_is_some container.archive && not (pull_is_missing container.pull))
      (container_field "pull") Problem.conflict
  when_some validate_container_name container.name
  for_each validate_env_key 0 (keys container.env)
  bail_if (is_relative container.working_dir) (container_field "working_dir") Problem.relative
  bail_if (mode_is_rootfs container.mode && not (is_empty container.mounts))
      (container_field "mounts") Problem.unsupported
  validate_mounts 0 [] container.mounts
