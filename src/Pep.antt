-- ===== src/Pep.antt =====
-- cai-pep/src/main.rs: the command policy's configuration, its requests, responses and errors. A failure
-- carries an error; a panic ends the thread. Spawned processes are kept in the order of their start.
pub mod Host
pub mod Response
pub mod Policy
pub mod Attestation
pub mod Sandbox
pub mod Process
pub mod Intent
pub mod Submit
mod Examples
use confidential_agent.Common.{ℕ, ◌*◌, String, Bool, Option, none, some, List, [], ◌∷◌, ◌++◌}
use confidential_agent.Common.Json.{Json}

pub data Outcome (E A : Type 0) : Type 0 where
  fail : E → Outcome E A
  success : A → Outcome E A
  panics : Outcome E A

-- `result.map_err(f)`
abbrev pub map_err : {E F A : Type 0} → (E → F) → Outcome E A → Outcome F A
map_err f (fail e) = fail (f e)
map_err f (success a) = success a
map_err f panics = panics

infixl 5 ◌>>=◌ ◌>>◌
abbrev pub ◌>>=◌ : {E A B : Type 0} → Outcome E A → (A → Outcome E B) → Outcome E B
fail e >>= next = fail e
success a >>= next = next a
panics >>= next = panics

abbrev pub ◌>>◌ : {E B : Type 0} → Outcome E (Unit {0}) → Outcome E B → Outcome E B
m >> next = m >>= λ done. next

-- `opt.ok_or_else(|| e)`
abbrev pub ok_or : {E A : Type 0} → Option A → E → Outcome E A
ok_or none e = fail e
ok_or (some a) e = success a

-- `std::process::Command`: the program and its arguments.
pub record Command : Type 0 where
  pub program : String
  pub args : List String

-- The counter `NEXT_ID`, and what was spawned.
pub record World : Type 0 where
  pub next_id : ℕ
  pub spawned : List Command

-- A step of the program on the world.
pub record Io (E A : Type 0) : Type 0 where
  pub run : World → Outcome E A × World

-- `cpus` is an `f64`, as its text.
pub record PepConfig : Type 0 where
  pub socket_path : String
  pub docker_image : String
  pub workspace_host_path : String
  pub workspace_mount_target : String
  pub allowed_workspace_prefixes : List String
  pub denied_path_prefixes : List String
  pub denied_command_patterns : List String
  pub timeout_secs : ℕ
  pub stdout_max_bytes : ℕ
  pub stderr_max_bytes : ℕ
  pub memory_mb : ℕ
  pub cpus : String
  pub pids_limit : ℕ
  pub docker_network_mode : String

pub record ExecParams : Type 0 where
  pub command : String
  pub workdir : String

pub record IntentParams : Type 0 where
  pub version : ℕ
  pub run_id : String
  pub session_key : String
  pub agent_id : String
  pub tool_name : String
  pub skill_id : String
  pub params : ExecParams
  pub request_context : Option Json
  pub security_profile_ref : Option String
  pub issued_at_ms : ℕ

pub record IntentEnvelope : Type 0 where
  pub method : String
  pub id : String
  pub params : IntentParams

pub record IntentSuccessResult : Type 0 where
  pub status : String
  pub decision : String
  pub backend : String
  pub sandbox_profile : String
  pub stdout : String
  pub stderr : String
  pub exit_code : ℕ
  pub duration_ms : ℕ
  pub audit_id : String

pub record IntentErrorResult : Type 0 where
  pub code : String
  pub message : String
  pub rule_id : Option String
  pub detail : Option Json
  pub audit_id : Option String

pub record IntentResponse : Type 0 where
  pub id : String
  pub result : Option IntentSuccessResult
  pub error : Option IntentErrorResult

pub data PepError : Type 0 where
  policy_deny : (rule_id message : String) (detail : Json) (audit_id : String) → PepError
  bad_request : (message : String) → PepError
  execution : (message audit_id : String) (detail : Json) → PepError

pub record ExecOutput : Type 0 where
  pub stdout : String
  pub stderr : String
  pub exit_code : ℕ

pub record AttestationRequest : Type 0 where
  pub aa_url : String
  pub tee : String
  pub policy : String
  pub claims : Bool

abbrev pub default_socket_path : String
default_socket_path = "/run/cai/pep.sock"

-- The configuration of an empty file, by the defaults of its fields.
abbrev pub default_config : PepConfig
default_config = record {
  socket_path = default_socket_path;
  docker_image =
      "alibaba-cloud-linux-3-registry.cn-hangzhou.cr.aliyuncs.com/alinux3/alinux3:latest";
  workspace_host_path = "/workspace";
  workspace_mount_target = "/workspace";
  allowed_workspace_prefixes = "/workspace" ∷ [];
  denied_path_prefixes =
      "/etc" ∷ "/proc" ∷ "/sys" ∷ "/dev" ∷ "/root" ∷ "/run" ∷ "/var/run"
      ∷ "/home/openclaw/.openclaw" ∷ [];
  denied_command_patterns =
      "curl " ∷ "wget " ∷ "nc " ∷ "ncat " ∷ "ssh " ∷ "scp " ∷ "sftp " ∷ "telnet " ∷ "docker "
      ∷ "podman " ∷ [];
  timeout_secs = 30;
  stdout_max_bytes = 64 * 1024;
  stderr_max_bytes = 32 * 1024;
  memory_mb = 512;
  cpus = "1";
  pids_limit = 128;
  docker_network_mode = "none";
}
