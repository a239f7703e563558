-- ===== src/Pep/Policy/Allowed.antt =====
-- Which folders the policy allows: those under a prefix that resolves to a folder.
use confidential_agent.Common.{
  String, true, some, List, [], ◌∷◌, ◌++◌, ◌≡◌, ◌↔◌, inl, inr, refl, sym, ap, ap₂, ◌∙◌, Any,
  Bool-cases, Option-cases, string_eq,
}
use confidential_agent.Spec.Types.{PathBuf}
use confidential_agent.Spec.Paths.{Component, root_dir, cur_dir, parent_dir, normal, components}
use confidential_agent.Pep.{Outcome, fail, success, panics, PepConfig}
use confidential_agent.Pep.Host.{Host}
use confidential_agent.Pep.Policy.{
  same_component, strip_components, path_starts_with, canonicalize_existing_dir, under, any_allowed,
  ensure_allowed_workdir,
}

normal_injective : {s t : String} → normal s ≡ normal t → s ≡ t
normal_injective h = cc

same_component_iff : (c d : Component) → (same_component c d ≡ true) ↔ (c ≡ d)
unfolding same_component
same_component_iff root_dir root_dir = (λ h. refl, λ h. refl)
same_component_iff cur_dir cur_dir = (λ h. refl, λ h. refl)
same_component_iff parent_dir parent_dir = (λ h. refl, λ h. refl)
same_component_iff (normal s) (normal t) = (
  λ h. ap normal ((string_eq.beq_iff s t).0 h),
  λ h. (string_eq.beq_iff s t).1 (normal_injective h),
)
same_component_iff c d = (λ h. cc, λ h. cc)

head : {c d : Component} {cs ds : List Component} → c ∷ cs ≡ d ∷ ds → c ≡ d
head h = cc

tail : {c d : Component} {cs ds : List Component} → c ∷ cs ≡ d ∷ ds → cs ≡ ds
tail h = cc

pub strip_components_iff :
    (prefix cs rest : List Component)
    → (strip_components prefix cs ≡ some rest) ↔ (cs ≡ prefix ++ rest)
unfolding strip_components
strip_components_iff [] cs rest = (λ h. cc, λ h. ap some h)
strip_components_iff (p ∷ prefix) [] rest = (λ h. cc, λ h. cc)
strip_components_iff (p ∷ prefix) (c ∷ cs) rest =
    let (to, from) = strip_components_iff prefix cs rest in
    let (same, back) = same_component_iff p c in
    elim (Bool-cases (same_component p c)) [
      | inl e ↦ rw e (λ h. ap₂ ◌∷◌ (sym (same e)) (to h), λ h. from (tail h))
      | inr e ↦ rw e (λ h. cc, λ h. absurd (cc (e, back (sym (head h)))))
    ]

-- The folder is in the folder that the prefix resolves to: its path goes on from there.
abbrev pub IsUnder : Host → PathBuf → String → Type 0
IsUnder host workdir allowed =
    (prefix : PathBuf) × (canonicalize_existing_dir host allowed ≡ success prefix)
    × ((rest : List Component) × (components workdir ≡ components prefix ++ rest))

path_starts_with_iff :
    (prefix path : PathBuf)
    → (path_starts_with prefix path ≡ true)
      ↔ ((rest : List Component) × (components path ≡ components prefix ++ rest))
unfolding path_starts_with
path_starts_with_iff prefix path =
    elim (Option-cases (strip_components (components prefix) (components path))) [
      | inl e ↦ rw e (
        λ h. cc,
        λ (rest, f).
            absurd (cc (e, (strip_components_iff (components prefix) (components path) rest).1 f)),
      )
      | inr (rest, e) ↦ rw e (
        λ h. (rest, (strip_components_iff (components prefix) (components path) rest).0 e),
        λ h. refl,
      )
    ]

success_injective :
    {p q : PathBuf} → ◌≡◌ {A = Outcome String PathBuf} (success p) (success q) → p ≡ q
success_injective h = cc

under_iff :
    (host : Host) (workdir : PathBuf) (r : Outcome String PathBuf)
    → (under host workdir r ≡ true) ↔ (
        (prefix : PathBuf) × (r ≡ success prefix)
        × ((rest : List Component) × (components workdir ≡ components prefix ++ rest)))
unfolding under
under_iff host workdir (fail e) = (λ h. cc, λ h. absurd (cc (h.1)))
under_iff host workdir panics = (λ h. cc, λ h. absurd (cc (h.1)))
under_iff host workdir (success prefix) =
    let (to, from) = path_starts_with_iff prefix workdir in
    (
      λ h. (prefix, refl, to h),
      λ (q, e, (rest, f)).
          from (rest, f ∙ ap (λ (p : PathBuf). components p ++ rest) (sym (success_injective e))),
    )

any_allowed_iff :
    (host : Host) (workdir : PathBuf) (prefixes : List String)
    → (any_allowed host workdir prefixes ≡ true) ↔ Any (IsUnder host workdir) prefixes
unfolding any_allowed
any_allowed_iff host workdir [] = (λ h. cc, λ h. absurd h)
any_allowed_iff host workdir (allowed ∷ prefixes) =
    let (to, from) = under_iff host workdir (canonicalize_existing_dir host allowed) in
    let (more, less) = any_allowed_iff host workdir prefixes in
    elim (Bool-cases (under host workdir (canonicalize_existing_dir host allowed))) [
      | inl e ↦ rw e (λ h. inl (to e), λ h. refl)
      | inr e ↦ rw e (
        λ h. inr (more h),
        λ h. elim h [ inl here ↦ absurd (cc (e, from here)) | inr there ↦ less there ],
      )
    ]

-- `ensure_allowed_workdir` passes a folder exactly if one of the configuration's prefixes resolves to
-- a folder that is there, and the folder's path, taken apart at "/", begins with that one's.
pub ensure_allowed_workdir_iff :
    (host : Host) (workdir : PathBuf) (config : PepConfig) (audit_id : String)
    → (ensure_allowed_workdir host workdir config audit_id ≡ success tt)
      ↔ Any (IsUnder host workdir) config.allowed_workspace_prefixes
unfolding ensure_allowed_workdir
ensure_allowed_workdir_iff host workdir config audit_id =
    let (to, from) = any_allowed_iff host workdir config.allowed_workspace_prefixes in
    elim (Bool-cases (any_allowed host workdir config.allowed_workspace_prefixes)) [
      | inl e ↦ rw e (λ h. to e, λ h. refl)
      | inr e ↦ rw e (λ h. cc, λ h. absurd (cc (e, from h)))
    ]
