-- ===== src/Mesh/Examples.antt =====
-- One service that is active and one that is not.
use mathlib.Core.Option
use confidential_agent.Common.{String, none, some, List, [], ◌∷◌, ◌≡◌, refl, false}
use confidential_agent.Common.Json.{Json}
use confidential_agent.Common.BTree.{BTreeMap, insert, keys, get, contains_key, filter_keys}
use confidential_agent.Common.BTree.Laws.{IsSorted}
use confidential_agent.Schema.{LocalServiceState, is_mesh_member}
use confidential_agent.Mesh.{mesh_service, service_map_from, render_mesh_bundle_at}
use confidential_agent.Mesh.Bundle.{last_member, OfMembers, render_mesh_bundle_lem}

-- A service's state by its id and phase.
abbrev state_of : String → String → LocalServiceState
state_of id phase = record {
  schema = "confidential-agent/service-state/v1";
  service_id = id;
  generation = 1;
  phase = phase;
  attestation_mode = "challenge";
  spec = record { path = "/project/agent.yaml"; sha256 = "00" };
  build = record {
    build_id = "b1";
    image_name = "web-image";
    variant = "release";
    image_path = "/images/web.qcow2";
    images_dir = "/images";
    cache_dir = "/cache";
    debug_ssh = none;
    sample_rv = none;
    rekor_meta = none;
    remote = false;
    published = [];
  };
  deploy = record {
    provider = "aliyun";
    run_id = "run-1";
    resource_name = "web";
    terraform_dir = none;
    image_source = none;
    image_import_name = none;
    bucket = none;
    instance_id = none;
    security_group_id = none;
    private_ip = some "10.0.0.5";
    public_ip = none;
    tee = "tdx";
    published_image_id = none;
    instance_ids = [];
    instance_private_ips = [];
    instance_public_ips = [];
    slb_vip = none;
  };
  service = record { ports = 8443 ∷ []; connect = []; mcp_ports = [] };
  gateway_identity = none;
  resources = [];
  mesh_generation = 1;
  reference_values = "sample";
}

abbrev states : List LocalServiceState
states = state_of "web" "active" ∷ state_of "batch" "destroyed" ∷ state_of "api" "activating" ∷ []

abbrev values : BTreeMap Json
values = ("batch", Json.null) ∷ ("web", Json.null) ∷ []

runs : Unit {0}
unfolding insert keys get contains_key filter_keys is_mesh_member service_map_from
    render_mesh_bundle_at
runs = tt

listed :
    (keys (render_mesh_bundle_at states values [] 7 0).services ≡ "api" ∷ "web" ∷ [])
    × (keys (render_mesh_bundle_at states values [] 7 0).reference_values ≡ "web" ∷ [])
unfolding runs
listed = (refl, refl)

render_mesh_bundle_lem_example :
    let bundle = render_mesh_bundle_at states values [] 7 0 in
    IsSorted bundle.services
    × ((id : String) → get id bundle.services ≡ Option.map mesh_service (last_member id states))
    × OfMembers states values bundle.reference_values
    × OfMembers states [] bundle.rekor_reference_values
render_mesh_bundle_lem_example = render_mesh_bundle_lem states values [] 7 0
