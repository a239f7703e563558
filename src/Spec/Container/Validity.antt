-- ===== src/Spec/Container/Validity.antt =====
-- What the container checks accept.
use confidential_agent.Common.{
  ℕ, suc, ◌≤◌, String, true, false, none, List, [], ◌∷◌, map, All, any, Distinct, ltb, string_eq,
  ◌↔◌, ◌≡◌, ◌≢◌, ◌⊎◌, arith, distinct_from, distinct_from-nil_iff, is_digit, Field, Problem, ok,
  bail_if-eq-ok_iff, WhenSome, when_some-eq-ok_iff, for_each-eq-ok_iff,
}
use confidential_agent.Common.Text
use confidential_agent.Common.Text.{trim, all_chars, any_char, first_is, byte_len, starts_with}
use confidential_agent.Common.BTree.{keys}
use confidential_agent.Spec.Types.{BuildContainerSpec, ContainerMountSpec, rootfs, missing}
use confidential_agent.Spec.Paths.{is_absolute, components}
use confidential_agent.Spec.Container.{
  is_name_char, is_env_char, validate_container_name, validate_env_key, comparable_mount_path,
  is_relative_component, validate_container_mount_path, mount_field, has_delimiter, validate_mounts,
  validate_build_container,
}

pub record IsContainerName (name : String) : Type 0 where
  pub filled : Text.is_empty (trim name) ≡ false
  pub short : byte_len name ≤ 64
  pub plain : all_chars is_name_char name ≡ true

name_iff : (name : String) → (validate_container_name name ≡ ok tt) ↔ IsContainerName name
unfolding validate_container_name
name_iff name = ground arith

-- A name of the shell's environment.
pub record IsEnvKey (key : String) : Type 0 where
  pub filled : Text.is_empty (trim key) ≡ false
  pub head : first_is is_digit key ≡ false
  pub plain : all_chars is_env_char key ≡ true

validate_env_key_iff : (i : ℕ) (key : String) → (validate_env_key i key ≡ ok tt) ↔ IsEnvKey key
unfolding validate_env_key
validate_env_key_iff i key = ground arith

-- An absolute path of the guest that never steps up.
pub record IsMountPath (value : String) : Type 0 where
  pub filled : Text.is_empty (trim value) ≡ false
  pub printable : any_char (λ c. ltb c 0x20) value ≡ false
  pub absolute : is_absolute value ≡ true
  pub fixed : any is_relative_component (components value) ≡ false

validate_container_mount_path_iff :
    (field : Field) (value : String)
    → (validate_container_mount_path field value ≡ ok tt) ↔ IsMountPath value
unfolding validate_container_mount_path
validate_container_mount_path_iff field value =
    ground (arith, bail_if-eq-ok_iff (Text.is_empty (trim value)) field Problem.empty)

pub record IsMount (mount : ContainerMountSpec) : Type 0 where
  pub source : IsMountPath mount.source
  pub target : IsMountPath mount.target
  pub source_plain : has_delimiter mount.source ≡ false
  pub target_plain : has_delimiter mount.target ≡ false

abbrev pub mount_targets : List ContainerMountSpec → List String
mount_targets = map (λ (m : ContainerMountSpec). comparable_mount_path m.target)

mounts_iff :
    (index : ℕ) (seen : List String) (mounts : List ContainerMountSpec)
    → (validate_mounts index seen mounts ≡ ok tt)
      ↔ (All IsMount mounts × (distinct_from seen (mount_targets mounts) ≡ true))
unfolding validate_mounts distinct_from
mounts_iff index seen [] = ground arith
mounts_iff index seen (m ∷ mounts) = ground (
  arith,
  validate_container_mount_path_iff (mount_field index "source") m.source,
  validate_container_mount_path_iff (mount_field index "target") m.target,
  mounts_iff (suc index) (comparable_mount_path m.target ∷ seen) mounts,
)

pub record IsContainer (c : BuildContainerSpec) : Type 0 where
  pub image : WhenSome (λ s. Text.is_empty (trim s) ≡ false) c.image
  pub origin : (c.image ≢ none) ⊎ (c.archive ≢ none)
  pub pull : (c.archive ≢ none) → c.pull ≡ missing
  pub name : WhenSome IsContainerName c.name
  pub env : All IsEnvKey (keys c.env)
  pub working_dir : WhenSome (λ s. starts_with b'/' s ≡ true) c.working_dir
  pub mode : (c.mode ≡ rootfs) → c.mounts ≡ []
  pub mounts : All IsMount c.mounts
  pub targets : Distinct (mount_targets c.mounts)

-- A container is accepted exactly if it has an image or an archive, an image that is set is not blank,
-- the pull policy is the default one with an archive, it has no mounts as a root file system, an
-- absolute working folder if any, and its name, environment and mounts are well formed, with mount
-- targets that differ up to slashes at their ends.
pub validate_build_container_iff :
    (c : BuildContainerSpec) → (validate_build_container c ≡ ok tt) ↔ IsContainer c
unfolding validate_build_container
validate_build_container_iff c = ground (
  arith,
  when_some-eq-ok_iff IsContainerName validate_container_name name_iff c.name,
  for_each-eq-ok_iff IsEnvKey validate_env_key validate_env_key_iff 0 (keys c.env),
  mounts_iff 0 [] c.mounts,
  distinct_from-nil_iff (mount_targets c.mounts),
)
