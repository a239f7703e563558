-- ===== src/Spec/Resolve/Absolute.antt =====
-- The paths of a spec that was resolved against an absolute folder.
use mathlib.Core.Option
use confidential_agent.Common.{
  String, true, Option, none, some, List, [], ◌∷◌, All, map, ◌≡◌, ◌⊎◌, inl, inr, WhenSome,
  Bool-cases,
}
use confidential_agent.Common.Text.{is_empty}
use confidential_agent.Spec.Types.{
  PathBuf, AgentSpec, BuildFileSpec, BuildContainerSpec, BuildVariantSpec, PublishedImageSpec,
  RekorSpec, ResourceSpec,
}
use confidential_agent.Spec.Paths.{is_absolute, components, resolve_pathbuf}
use confidential_agent.Spec.Paths.Normal.{IsPlain, resolve_pathbuf_lem}
use confidential_agent.Spec.Resolve.{
  resolve_filled, resolve_file, resolve_resource, resolve_container, resolve_variant, resolve_image,
  resolve_rekor, resolve_paths_against,
}

-- A path from the root, with no "." and no "..".
pub record IsResolved (p : PathBuf) : Type 0 where
  pub absolute : is_absolute p ≡ true
  pub plain : All IsPlain (components p)

-- A path that may be left empty.
abbrev pub IsFilledResolved : PathBuf → Type 0
IsFilledResolved p = (is_empty p ≡ true) ⊎ IsResolved p

pub record IsResolvedImage (image : PublishedImageSpec) : Type 0 where
  pub release : IsFilledResolved image.release
  pub trusted_key : IsFilledResolved image.trusted_key

pub record IsResolvedRekor (r : RekorSpec) : Type 0 where
  pub cosign_key : WhenSome IsResolved r.cosign_key
  pub slsa_generator : IsResolved r.slsa_generator

abbrev pub HasResolvedSource : String × ResourceSpec → Type 0
HasResolvedSource (k, r) = IsResolved r.source

-- Every path of the spec that names a file of the host.
pub record ArePathsResolved (spec : AgentSpec) : Type 0 where
  pub runtime_contract : WhenSome IsResolved spec.build.runtime_contract
  pub scripts : All IsResolved spec.build.scripts
  pub files : All (λ (f : BuildFileSpec). IsResolved f.source) spec.build.files
  pub archive :
      WhenSome (λ (c : BuildContainerSpec). WhenSome IsResolved c.archive) spec.build.container
  pub debug_key :
      WhenSome
        (λ (v : BuildVariantSpec). WhenSome IsResolved v.ssh_public_key)
        spec.build.variants.debug
  pub image : WhenSome IsResolvedImage spec.deploy.image
  pub disk_passphrase : WhenSome IsResolved spec.secrets.disk_passphrase
  pub resources : All HasResolvedSource spec.resources
  pub rekor : WhenSome IsResolvedRekor spec.attestation.rekor

WhenSome-map {ℓ} :
    {A B : Type ℓ} (Q : B → Type ℓ) (f : A → B)
    → ((a : A) → Q (f a))
    → (o : Option A) → WhenSome Q (Option.map f o)
WhenSome-map Q f h none = tt
WhenSome-map Q f h (some a) = h a

module _ (base_dir : PathBuf) (absolute_base : is_absolute base_dir ≡ true) where
  resolved : (p : PathBuf) → IsResolved (resolve_pathbuf base_dir p)
  resolved p =
      let (a, c) = resolve_pathbuf_lem base_dir p absolute_base in
      record { absolute = a; plain = c }

  resolved_filled : (p : PathBuf) → IsFilledResolved (resolve_filled base_dir p)
  unfolding resolve_filled
  resolved_filled p = elim (Bool-cases (is_empty p)) [
    | inl e ↦ rw e (inl e)
    | inr e ↦ rw e (inr (resolved p))
  ]

  paths-IsResolved : (paths : List PathBuf) → All IsResolved (map (resolve_pathbuf base_dir) paths)
  paths-IsResolved [] = tt
  paths-IsResolved (p ∷ paths) = (resolved p, paths-IsResolved paths)

  files-IsResolved :
      (files : List BuildFileSpec)
      → All (λ (f : BuildFileSpec). IsResolved f.source) (map (resolve_file base_dir) files)
  files-IsResolved [] = tt
  files-IsResolved (f ∷ files) = (resolved f.source, files-IsResolved files)

  resources-HasResolvedSource :
      (resources : List (String × ResourceSpec))
      → All HasResolvedSource (map (resolve_resource base_dir) resources)
  resources-HasResolvedSource [] = tt
  resources-HasResolvedSource ((k, r) ∷ resources) =
      (resolved r.source, resources-HasResolvedSource resources)

  optional : (o : Option PathBuf) → WhenSome IsResolved (Option.map (resolve_pathbuf base_dir) o)
  optional = WhenSome-map IsResolved (resolve_pathbuf base_dir) resolved

  resolved_image : (i : PublishedImageSpec) → IsResolvedImage (resolve_image base_dir i)
  resolved_image i = record {
    release = resolved_filled i.release;
    trusted_key = resolved_filled i.trusted_key;
  }

  resolved_rekor : (r : RekorSpec) → IsResolvedRekor (resolve_rekor base_dir r)
  resolved_rekor r = record {
    cosign_key = optional r.cosign_key;
    slsa_generator = resolved r.slsa_generator;
  }

  -- Resolving a spec against an absolute folder makes each path in it that `resolve_paths_against`
  -- visits absolute, with no "." and no ".."; the two of a published image may stay empty.
  pub resolve_paths_against-ArePathsResolved :
      (spec : AgentSpec) → ArePathsResolved (resolve_paths_against base_dir spec)
  unfolding resolve_paths_against
  resolve_paths_against-ArePathsResolved spec = record {
    runtime_contract = optional spec.build.runtime_contract;
    scripts = paths-IsResolved spec.build.scripts;
    files = files-IsResolved spec.build.files;
    archive =
        WhenSome-map (λ (c : BuildContainerSpec). WhenSome IsResolved c.archive)
          (resolve_container base_dir) (λ c. optional c.archive) spec.build.container;
    debug_key =
        WhenSome-map (λ (v : BuildVariantSpec). WhenSome IsResolved v.ssh_public_key)
          (resolve_variant base_dir) (λ v. optional v.ssh_public_key) spec.build.variants.debug;
    image = WhenSome-map IsResolvedImage (resolve_image base_dir) resolved_image spec.deploy.image;
    disk_passphrase = optional spec.secrets.disk_passphrase;
    resources = resources-HasResolvedSource spec.resources;
    rekor =
        WhenSome-map IsResolvedRekor (resolve_rekor base_dir) resolved_rekor spec.attestation.rekor;
  }
