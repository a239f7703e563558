-- ===== src/Spec/Checks/Validity.antt =====
-- What a valid spec is, and what `validate` accepts.
use confidential_agent.Common.{
  ℕ, some, List, [], ◌∷◌, All, ◌↔◌, ◌≡◌, inl, inr, arith, ok, WhenSome, when_some-eq-ok_iff, subst,
  sym, All-map,
}
use confidential_agent.Spec.Types.{AgentSpec, A2aSpec, A2aInterfaceSpec}
use confidential_agent.Spec.Ports.{connect_ports}
use confidential_agent.Spec.Ports.Validity.{Member}
use confidential_agent.Spec.Resources.Validity.{
  IsResource, IsAttestation, validate_resources_iff, validate_attestation_iff,
}
use confidential_agent.Spec.AgentToAgent.{validate_a2a}
use confidential_agent.Spec.AgentToAgent.Validity.{IsA2a, IsInterface, validate_a2a_iff}
use confidential_agent.Spec.Checks.{validate}
use confidential_agent.Spec.Checks.Parts.{
  IsService, IsImage, IsNetwork, IsBuild, IsDeploy, IsVariants, validate_service_iff,
  validate_image_iff, validate_network_iff, validate_build_iff, validate_deploy_iff,
  validate_variants_iff,
}

-- Every part of the spec is well formed, and the parts fit together.
pub record IsValid (spec : AgentSpec) : Type 0 where
  pub service : IsService spec
  pub image : IsImage spec.build spec.deploy.image
  pub network : IsNetwork spec
  pub build : IsBuild spec.build
  pub deploy : IsDeploy spec
  pub variants : IsVariants spec
  pub resources : All IsResource spec.resources
  pub attestation : IsAttestation spec.attestation
  pub a2a : WhenSome (IsA2a spec.service.connect) spec.a2a

-- `AgentSpec::validate` accepts a spec exactly if each of its nine parts is well formed: the
-- service with its disk, the image, the ports, the build, the deployment with its balancer, the
-- variants, the resources, the attestation and the agent card.
pub validate_spec_iff : (spec : AgentSpec) → (validate spec ≡ ok tt) ↔ IsValid spec
unfolding validate
validate_spec_iff spec = ground (
  arith,
  validate_service_iff spec,
  validate_image_iff spec,
  validate_network_iff spec,
  validate_build_iff spec.build,
  validate_deploy_iff spec,
  validate_variants_iff spec,
  validate_resources_iff spec.resources,
  validate_attestation_iff spec.attestation,
  when_some-eq-ok_iff (IsA2a spec.service.connect) (validate_a2a spec.service.connect)
      (validate_a2a_iff spec.service.connect) spec.a2a,
)

interface_apart :
    (spec : AgentSpec) (i : A2aInterfaceSpec) (mcp_ports : List ℕ)
    → All (λ p. ¬ Member (connect_ports spec.service.connect) p) mcp_ports
    → IsInterface spec.service.connect i
    → ¬ Member mcp_ports i.port
interface_apart spec i [] h served m = m
interface_apart spec i (p ∷ mcp_ports) (apart, h) served (inl e) =
    apart (subst (Member (connect_ports spec.service.connect)) (sym e) served.served)
interface_apart spec i (p ∷ mcp_ports) (apart, h) served (inr m) =
    interface_apart spec i mcp_ports h served m

-- In a spec that is accepted no A2A interface stands on an MCP port.
pub interfaces-apart :
    (spec : AgentSpec) (a : A2aSpec)
    → validate spec ≡ ok tt
    → spec.a2a ≡ some a
    → All (λ (i : A2aInterfaceSpec). ¬ Member spec.service.mcp_ports i.port) a.interfaces
interfaces-apart spec a accepted e =
    let v = (validate_spec_iff spec).0 accepted in
    let valid = rw e at v.a2a in
    All-map (IsInterface spec.service.connect)
      (λ (i : A2aInterfaceSpec). ¬ Member spec.service.mcp_ports i.port)
      (λ i. interface_apart spec i spec.service.mcp_ports v.network.mcp.disjoint) a.interfaces
      valid.interfaces
