-- ===== src/Spec/Types.antt =====
-- core/src/spec.rs, the types: an `AgentSpec` as serde hands it over.
use confidential_agent.Common.{ℕ, String, Bool, Option, List}
use confidential_agent.Common.BTree.{BTreeMap}
use confidential_agent.Common.Json.{Json}

-- A path is its text.
abbrev pub PathBuf : Type 0
PathBuf = String

pub data EncryptionMode : Type 0 where
  rats_tls ohttp : EncryptionMode

pub data ConnectPort : Type 0 where
  plain : ℕ → ConnectPort
  config : (port : ℕ) (encryption : EncryptionMode) → ConnectPort

pub record ServiceSpec : Type 0 where
  pub id : String
  pub ports : List ℕ
  pub connect : List ConnectPort
  pub mcp_ports : List ℕ
  pub app_service : Option String
  pub ssh : Bool

pub record BuildRepositorySpec : Type 0 where
  pub name : String
  pub baseurl : String
  pub gpgkey : String

pub record BuildCleanupSpec : Type 0 where
  pub remove_static_libs : Option Bool

pub record ContainerMountSpec : Type 0 where
  pub source : String
  pub target : String
  pub read_only : Bool

pub data ContainerMode : Type 0 where
  runtime rootfs : ContainerMode

pub data ContainerRuntime : Type 0 where
  containerd podman : ContainerRuntime

pub data ContainerPullPolicy : Type 0 where
  missing always never : ContainerPullPolicy

pub record BuildContainerSpec : Type 0 where
  pub image : Option String
  pub archive : Option PathBuf
  pub mode : ContainerMode
  pub runtime : ContainerRuntime
  pub name : Option String
  pub pull : ContainerPullPolicy
  pub command : List String
  pub env : BTreeMap String
  pub working_dir : Option String
  pub network : Option Bool
  pub mounts : List ContainerMountSpec

pub record BuildFileSpec : Type 0 where
  pub source : PathBuf
  pub target : String
  pub executable : Bool

pub record BuildVariantSpec : Type 0 where
  pub enabled : Bool
  pub ssh_public_key : Option PathBuf

pub record BuildVariantsSpec : Type 0 where
  pub release : BuildVariantSpec
  pub debug : Option BuildVariantSpec

pub record BuildSpec : Type 0 where
  pub image_name : String
  pub runtime_contract : Option PathBuf
  pub kernel_cmdline_append : Option String
  pub resize : Option String
  pub container : Option BuildContainerSpec
  pub packages : List String
  pub repos : List BuildRepositorySpec
  pub files : List BuildFileSpec
  pub scripts : List PathBuf
  pub variants : BuildVariantsSpec
  pub cleanup : BuildCleanupSpec

pub data SlbType : Type 0 where
  nlb alb : SlbType

pub record SlbSpec : Type 0 where
  pub enabled : Bool
  pub slb_type : SlbType

pub record PublishedImageSpec : Type 0 where
  pub release : PathBuf
  pub trusted_key : PathBuf
  pub manifest : Option String
  pub legacy_account_id : Option String
  pub image_id : Option String
  pub skip_signature_verification : Bool

pub data DeployProvider : Type 0 where
  aliyun : DeployProvider

pub record DeploySpec : Type 0 where
  pub provider : DeployProvider
  pub image : Option PublishedImageSpec
  pub instance_type : String
  pub image_variant : Option String
  pub disk_gb : Option ℕ
  pub private_ip : Option String
  pub region : String
  pub zone_id : String
  pub vpc_id : Option String
  pub vswitch_id : Option String
  pub security_group_id : Option String
  pub replicas : ℕ
  pub slb : Option SlbSpec

pub record RekorSpec : Type 0 where
  pub artifact_id : Option String
  pub artifact_type : String
  pub artifact_version : Option String
  pub rekor_url : String
  pub cosign_key : Option PathBuf
  pub slsa_generator : PathBuf
  pub rv_name : Option String
  pub required : Bool

pub data AttestationMode : Type 0 where
  challenge trustee : AttestationMode

pub data AttestationTee : Type 0 where
  tdx : AttestationTee

pub data ReferenceValueMode : Type 0 where
  sample rekor : ReferenceValueMode

pub record AttestationSpec : Type 0 where
  pub tee : AttestationTee
  pub mode : AttestationMode
  pub reference_values : ReferenceValueMode
  pub rekor : Option RekorSpec

pub record SecretsSpec : Type 0 where
  pub disk_passphrase : Option PathBuf

pub record ResourceSpec : Type 0 where
  pub source : PathBuf
  pub target : String
  pub owner : Option String
  pub group : Option String
  pub mode : Option String
  pub required : Bool
  pub mutable : Bool

pub record A2aInterfaceSpec : Type 0 where
  pub protocol_binding : String
  pub port : ℕ
  pub path : String

pub record A2aSigningSpec : Type 0 where
  pub mode : Option String
  pub required : Bool
  pub expected_issuer : Option String
  pub expected_subject : Option String
  pub oidc_issuer : Option String

pub record A2aSkillSpec : Type 0 where
  pub id : String
  pub name : String
  pub description : Option String
  pub tags : List String
  pub examples : List String
  pub input_modes : List String
  pub output_modes : List String

pub record A2aSpec : Type 0 where
  pub enabled : Bool
  pub id : String
  pub name : String
  pub version : Option String
  pub description : Option String
  pub provider : Option Json
  pub cache_ttl_sec : ℕ
  pub interfaces : List A2aInterfaceSpec
  pub signing : A2aSigningSpec
  pub skills : List A2aSkillSpec

pub record AgentSpec : Type 0 where
  pub schema : String
  pub service : ServiceSpec
  pub build : BuildSpec
  pub deploy : DeploySpec
  pub attestation : AttestationSpec
  pub secrets : SecretsSpec
  pub resources : BTreeMap ResourceSpec
  pub a2a : Option A2aSpec
