-- ===== src/Spec/Checks/Loading.antt =====
-- core/src/spec.rs: `AgentSpec::from_yaml`. The YAML parser is a parameter: a text gives a spec or an
-- error.
use confidential_agent.Common.{
  String, true, ◌≡◌, Result, ok, ◌>>=◌, ◌>>◌, bind-eq-ok, seq-eq-ok_iff, ok_injective,
}
use confidential_agent.Spec.Types.{PathBuf, AgentSpec}
use confidential_agent.Spec.Paths.{is_absolute}
use confidential_agent.Spec.Resolve.{resolve_paths_against}
use confidential_agent.Spec.Resolve.Absolute.{
  ArePathsResolved, resolve_paths_against-ArePathsResolved,
}
use confidential_agent.Spec.Checks.{validate}
use confidential_agent.Spec.Checks.Validity.{IsValid, validate_spec_iff}

unfoldable pub from_yaml : (String → Result AgentSpec) → String → PathBuf → Result AgentSpec
from_yaml parse content base_dir = do
  spec ← parse content
  let resolved = resolve_paths_against base_dir spec
  validate resolved
  ok resolved

-- A spec that is loaded from an absolute folder is what the parser read with its paths resolved;
-- it is valid, and each path that `resolve_paths_against` visits is absolute, with no "." and no
-- "..", where the two of a published image may stay empty.
pub from_yaml-IsValid :
    (parse : String → Result AgentSpec) (content : String) (base_dir : PathBuf) (spec : AgentSpec)
    → is_absolute base_dir ≡ true
    → from_yaml parse content base_dir ≡ ok spec
    → ((read : AgentSpec) × (parse content ≡ ok read)
        × (resolve_paths_against base_dir read ≡ spec))
      × IsValid spec
      × ArePathsResolved spec
unfolding from_yaml
from_yaml-IsValid parse content base_dir spec absolute h =
    let (read, parsed, h₁) = bind-eq-ok (parse content) _ h in
    let resolved = resolve_paths_against base_dir read in
    let (checked, same) = (seq-eq-ok_iff (validate resolved) (ok resolved)).0 h₁ in
    let is_resolved = ok_injective same in
    (
      (read, parsed, is_resolved),
      rw (← is_resolved) ((validate_spec_iff resolved).0 checked),
      rw (← is_resolved) (resolve_paths_against-ArePathsResolved base_dir absolute read),
    )
