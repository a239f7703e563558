-- ===== src/Schema.antt =====
-- core/src/schema.rs: the state of a deployed service as the CLI keeps it, and the bundle that the
-- mesh carries. Reading and writing them is serde's.
pub mod Addresses
pub mod Confidential
mod Examples
use mathlib.Core.Option
use confidential_agent.Common.{
  ℕ, suc, String, Bool, true, false, not, ◌&&◌, ◌||◌, Option, none, some, List, [], ◌∷◌, map, leb,
  ◌==◌, nat_eq, string_eq, if◌then◌else◌, contains,
}
use confidential_agent.Common.Text
use confidential_agent.Common.Text.{trim}
use confidential_agent.Common.Json.{Json}
use confidential_agent.Common.BTree.{BTreeMap}
use confidential_agent.Spec.Types.{PathBuf, ConnectPort}
use confidential_agent.Spec.Ports.{connect_ports}

pub record LocalSpecState : Type 0 where
  pub path : PathBuf
  pub sha256 : String

pub record LocalDebugSshKey : Type 0 where
  pub private_key : PathBuf
  pub public_key : PathBuf

pub record PublishedImage : Type 0 where
  pub provider : String
  pub region : String
  pub variant : String
  pub build_id : String
  pub source_sha256 : String
  pub source_size : ℕ
  pub status : String
  pub image_name : String
  pub image_id : Option String
  pub import_task_id : Option String
  pub bucket : Option String
  pub object_key : Option String
  pub created_at : String
  pub updated_at : String
  pub oss_cleaned : Bool
  pub exported : Bool
  pub owned : Bool
  pub import_token : String
  pub retiring : Bool
  pub import_snapshot_ids : List String
  pub error : Option String

pub record LocalBuildState : Type 0 where
  pub build_id : String
  pub image_name : String
  pub variant : String
  pub image_path : PathBuf
  pub images_dir : PathBuf
  pub cache_dir : PathBuf
  pub debug_ssh : Option LocalDebugSshKey
  pub sample_rv : Option PathBuf
  pub rekor_meta : Option PathBuf
  pub remote : Bool
  pub published : BTreeMap PublishedImage

pub record LocalDeployState : Type 0 where
  pub provider : String
  pub run_id : String
  pub resource_name : String
  pub terraform_dir : Option PathBuf
  pub image_source : Option PathBuf
  pub image_import_name : Option String
  pub bucket : Option String
  pub instance_id : Option String
  pub security_group_id : Option String
  pub private_ip : Option String
  pub public_ip : Option String
  pub tee : String
  pub published_image_id : Option String
  pub instance_ids : List String
  pub instance_private_ips : List String
  pub instance_public_ips : List String
  pub slb_vip : Option String

pub record LocalServiceNetwork : Type 0 where
  pub ports : List ℕ
  pub connect : List ConnectPort
  pub mcp_ports : List ℕ

pub record LocalGatewayIdentity : Type 0 where
  pub public_key : String
  pub private_key_path : PathBuf

pub record LocalResourceState : Type 0 where
  pub sha256 : String
  pub target : PathBuf
  pub owner : Option String
  pub group : Option String
  pub mode : String
  pub required : Bool
  pub mutable : Bool

pub record LocalServiceState : Type 0 where
  pub schema : String
  pub service_id : String
  pub generation : ℕ
  pub phase : String
  pub attestation_mode : String
  pub spec : LocalSpecState
  pub build : LocalBuildState
  pub deploy : LocalDeployState
  pub service : LocalServiceNetwork
  pub gateway_identity : Option LocalGatewayIdentity
  pub resources : BTreeMap LocalResourceState
  pub mesh_generation : ℕ
  pub reference_values : String

pub record MeshService : Type 0 where
  pub phase : String
  pub private_ip : Option String
  pub public_ip : Option String
  pub ports : List ℕ
  pub connect : List ConnectPort
  pub mcp_ports : List ℕ
  pub gateway_public_key : Option String

pub record MeshBundle : Type 0 where
  pub schema : String
  pub generation : ℕ
  pub updated_at : ℕ
  pub services : BTreeMap MeshService
  pub reference_values : BTreeMap Json
  pub rekor_reference_values : BTreeMap Json

unfoldable pub mesh_schema_version : String
mesh_schema_version = "confidential-agent/mesh-bundle/v1"

-- `LocalServiceState::is_mesh_member`
unfoldable pub is_mesh_member : LocalServiceState → Bool
is_mesh_member state = state.phase == "active" || state.phase == "activating"

abbrev pub first : List String → Option String
first [] = none
first (s ∷ xs) = some s

-- `o.filter(|s| !s.trim().is_empty())`
unfoldable pub filled : Option String → Option String
filled none = none
filled (some s) = if not (Text.is_empty (trim s)) then some s else none

-- `a.or_else(|| b)`
abbrev pub or_else : Option String → Option String → Option String
or_else none b = b
or_else (some a) b = some a

-- `LocalDeployState::preferred_injection_ip`
unfoldable pub preferred_injection_ip : LocalDeployState → Option String
preferred_injection_ip d =
    or_else (filled (or_else (first d.instance_public_ips) (first d.instance_private_ips)))
      (or_else (filled d.public_ip) (filled d.private_ip))

-- `LocalDeployState::private_mesh_ip`
unfoldable pub private_mesh_ip : LocalDeployState → Option String
private_mesh_ip d = filled d.private_ip

-- `iter().filter(|port| !connect.contains(port)).collect()`
unfoldable pub without : List ℕ → List ℕ → List ℕ
without connect [] = []
without connect (p ∷ ports) =
    if not (contains connect p) then p ∷ without connect ports else without connect ports

unfoldable pub insert_port : ℕ → List ℕ → List ℕ
insert_port p [] = p ∷ []
insert_port p (q ∷ ports) = if leb p q then p ∷ q ∷ ports else q ∷ insert_port p ports

-- `sort_unstable()`; equal ports are the same port.
unfoldable pub sort : List ℕ → List ℕ
sort [] = []
sort (p ∷ ports) = insert_port p (sort ports)

-- `dedup()`: a port that equals the one before it goes.
unfoldable pub dedup_after : ℕ → List ℕ → List ℕ
dedup_after p [] = []
dedup_after p (q ∷ ports) = if p == q then dedup_after p ports else q ∷ dedup_after q ports

unfoldable pub dedup : List ℕ → List ℕ
dedup [] = []
dedup (p ∷ ports) = p ∷ dedup_after p ports

unfoldable pub confidential_ports : List ℕ → List ConnectPort → List ℕ
confidential_ports ports connect = dedup (sort (without (connect_ports connect) ports))
