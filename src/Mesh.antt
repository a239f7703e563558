-- ===== src/Mesh.antt =====
-- core/src/mesh.rs: the bundle that the mesh is sent, of the services that are members of it. The
-- time is a parameter.
pub mod Bundle
mod Examples
use mathlib.Core.Option
use confidential_agent.Common.{
  ℕ, String, Bool, true, false, Option, none, some, List, [], ◌∷◌, if◌then◌else◌,
}
use confidential_agent.Common.Json.{Json}
use confidential_agent.Common.BTree.{BTreeMap, insert, contains_key, filter_keys}
use confidential_agent.Schema.{
  LocalServiceState, LocalGatewayIdentity, MeshService, MeshBundle, is_mesh_member,
  mesh_schema_version,
}

abbrev pub mesh_service : LocalServiceState → MeshService
mesh_service state = record {
  phase = "active";
  private_ip = state.deploy.private_ip;
  public_ip = state.deploy.public_ip;
  ports = state.service.ports;
  connect = state.service.connect;
  mcp_ports = state.service.mcp_ports;
  gateway_public_key =
      Option.map (λ (i : LocalGatewayIdentity). i.public_key) state.gateway_identity;
}

-- The loop over the services, on the map so far.
unfoldable pub service_map_from :
    BTreeMap MeshService → List LocalServiceState → BTreeMap MeshService
service_map_from m [] = m
service_map_from m (state ∷ states) =
    service_map_from
      (if is_mesh_member state then insert state.service_id (mesh_service state) m else m) states

unfoldable pub render_mesh_bundle_at :
    List LocalServiceState → BTreeMap Json → BTreeMap Json → ℕ → ℕ → MeshBundle
render_mesh_bundle_at states sample_values rekor_values generation updated_at =
    let service_map = service_map_from [] states in
    record {
      schema = mesh_schema_version;
      generation = generation;
      updated_at = updated_at;
      services = service_map;
      reference_values = filter_keys (λ id. contains_key id service_map) sample_values;
      rekor_reference_values = filter_keys (λ id. contains_key id service_map) rekor_values;
    }
