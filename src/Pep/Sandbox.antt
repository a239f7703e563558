-- ===== src/Pep/Sandbox.antt =====
-- cai-pep/src/main.rs: the container in which a command runs, and the helper that attests the guest.
use Prim.Native.String
use confidential_agent.Common.{
  ℕ, String, Bool, Option, none, some, List, [], ◌∷◌, if◌then◌else◌, ◌==◌, nat_eq, is_whitespace,
  string_eq, not,
}
use confidential_agent.Common.Text.{concat, show, join_with, trim_end_matches, is_empty}
use confidential_agent.Common.Json
use confidential_agent.Common.Json.{Json}
use confidential_agent.Spec.Types.{PathBuf}
use confidential_agent.Spec.Paths.{Component, root_dir, cur_dir, parent_dir, normal, components}
use confidential_agent.Pep.{
  Outcome, fail, success, panics, Command, Io, PepConfig, ExecOutput, AttestationRequest,
}
use confidential_agent.Pep
use confidential_agent.Pep.Host.{Host, ◌>>=◌, lift, unique_id, now, attempt}
use confidential_agent.Pep.Policy.{canonicalize_existing_dir, strip_components}
use confidential_agent.Pep.Attestation.{attestation_work_dir, ensure_attestation_policy}
use confidential_agent.Pep.Process.{run_command_and_capture, run_command_and_capture_with_cleanup}

abbrev component_text : Component → String
component_text (normal s) = s
component_text root_dir = "/"
component_text cur_dir = "."
component_text parent_dir = ".."

abbrev pub texts : List Component → List String
texts [] = []
texts (c ∷ cs) = component_text c ∷ texts cs

abbrev is_slash : ℕ → Bool
is_slash c = c == b'/'

-- The place of a folder in the container, by what follows the workspace's root in its path.
unfoldable pub container_path : PepConfig → Option (List Component) → Outcome String String
container_path config none = fail "workdir is outside workspace root"
container_path config (some []) = success config.workspace_mount_target
container_path config (some (c ∷ cs)) = success (
    concat (
      trim_end_matches is_slash config.workspace_mount_target
      ∷ "/"
      ∷ join_with "/" (texts (c ∷ cs))
      ∷ []))

unfoldable pub host_to_container_path : PathBuf → PathBuf → PepConfig → Outcome String String
host_to_container_path workdir workspace_root config =
    container_path config (strip_components (components workspace_root) (components workdir))

-- The command of `run_exec_in_docker`.
unfoldable pub docker_command : PepConfig → PathBuf → String → ℕ × ℕ → String → String → Command
docker_command config workspace_root container_workdir (uid, gid) container_name command = record {
  program = "docker";
  args =
      "run"
      ∷ "--name"
      ∷ container_name
      ∷ "--label"
      ∷ "confidential-agent.cai-pep=true"
      ∷ "--rm"
      ∷ "--init"
      ∷ "--read-only"
      ∷ "--network"
      ∷ config.docker_network_mode
      ∷ "--cap-drop"
      ∷ "ALL"
      ∷ "--security-opt"
      ∷ "no-new-privileges"
      ∷ "--pids-limit"
      ∷ show config.pids_limit
      ∷ "--memory"
      ∷ concat (show config.memory_mb ∷ "m" ∷ [])
      ∷ "--cpus"
      ∷ config.cpus
      ∷ "--tmpfs"
      ∷ "/tmp:rw,noexec,nosuid,nodev,size=64m"
      ∷ "--tmpfs"
      ∷ "/run:rw,noexec,nosuid,nodev,size=16m"
      ∷ "--user"
      ∷ concat (show uid ∷ ":" ∷ show gid ∷ [])
      ∷ "-v"
      ∷ concat (workspace_root ∷ ":" ∷ config.workspace_mount_target ∷ ":rw" ∷ [])
      ∷ "--workdir"
      ∷ container_workdir
      ∷ config.docker_image
      ∷ "/bin/sh"
      ∷ "-lc"
      ∷ command
      ∷ [];
}

abbrev pub client : List String → Command
client args = record { program = "/usr/bin/attestation-challenge-client"; args = args }

abbrev guest_policy_source : String
guest_policy_source = "/opt/confidential-agent/policies/trustee-opa-default.rego"

abbrev pub guest_reference_values : String
guest_reference_values = "/opt/confidential-agent/reference-value-list.json"

unfoldable pub get_evidence_command : AttestationRequest → String → Command
get_evidence_command request evidence_path =
    client ("get-evidence" ∷ "--aa-url" ∷ request.aa_url ∷ "--output" ∷ evidence_path ∷ [])

unfoldable pub verify_command : AttestationRequest → String → Command
verify_command request evidence_path = client (
    "verify"
    ∷ "--evidence"
    ∷ evidence_path
    ∷ "--tee"
    ∷ request.tee
    ∷ "--policy"
    ∷ request.policy
    ∷ (if request.claims then "--claims" ∷ [] else []))

abbrev pub trim_end : String → String
trim_end s = trim_end_matches is_whitespace s

-- The two error outputs as one, a line break after each that is not empty.
unfoldable pub join_stderr : String → String → String
join_stderr left right =
    if is_empty left
    then if is_empty right then "" else concat (right ∷ "\n" ∷ [])
    else if is_empty right
    then concat (left ∷ "\n" ∷ [])
    else concat (left ∷ "\n" ∷ right ∷ "\n" ∷ [])

-- The warning of the reference values' load.
unfoldable pub load_warning : Outcome String ExecOutput → String
load_warning (success output) =
    if output.exit_code == 0
    then ""
    else concat
        ("cai-pep attest: reference value load failed: " ∷ trim_end output.stderr ∷ "\n" ∷ [])
load_warning (fail message) =
    concat ("cai-pep attest: reference value load failed: " ∷ message ∷ "\n" ∷ [])
load_warning panics = ""

abbrev policy_warning : Outcome String (Unit {0}) → String
policy_warning (fail message) =
    concat ("cai-pep attest: policy setup skipped: " ∷ message ∷ "\n" ∷ [])
policy_warning _ = ""

-- The load of a list of reference values, or of a single payload.
unfoldable pub load_command_of : String → Json → Command
load_command_of rv_path value = elim (Json.get value "rv_list") [
  | some list ↦ client ("set-reference-value-list" ∷ "--rv-list" ∷ rv_path ∷ [])
  | none ↦
      client ("set-reference-value" ∷ "--provenance-type" ∷ "sample" ∷ "--payload" ∷ rv_path ∷ [])
]

module _ (host : Host) where
  unfoldable pub run_exec_in_docker : PepConfig → PathBuf → String → Io String ExecOutput
  run_exec_in_docker config canonical_workdir command = do
    workspace_root ← lift (canonicalize_existing_dir host config.workspace_host_path)
    container_workdir ← lift (host_to_container_path canonical_workdir workspace_root config)
    owner ← lift (
        Pep.map_err
          (λ e. concat ("failed to stat workdir " ∷ host.debug canonical_workdir ∷ ": " ∷ e ∷ []))
          (host.owner canonical_workdir))
    container_name ← unique_id host "cai-pep"
    run_command_and_capture_with_cleanup host
        (docker_command config workspace_root container_workdir owner container_name command)
        config.stdout_max_bytes config.stderr_max_bytes config.timeout_secs (some container_name)

  -- The command of `reference_value_load_command`, if the file is there and is JSON.
  unfoldable pub reference_value_load_command : String → Option Command
  reference_value_load_command rv_path = elim (host.read_text rv_path) [
    | none ↦ none
    | some content ↦ elim (host.parse_json content) [
      | none ↦ none
      | some value ↦ some (load_command_of rv_path value)
    ]
  ]

  -- The load of the reference values, whose failure is only a warning.
  unfoldable pub load_reference_values : Option Command → ℕ → ℕ → ℕ → Io String String
  load_reference_values none stdout_max stderr_max timeout_secs = lift (success "")
  load_reference_values (some load) stdout_max stderr_max timeout_secs = do
    loaded ← attempt (run_command_and_capture host load stdout_max stderr_max timeout_secs)
    lift (success (load_warning loaded))

  -- What follows the evidence's collection.
  unfoldable pub verify_evidence :
      AttestationRequest → ℕ → ℕ → ℕ → String → String → ExecOutput → Io String ExecOutput
  verify_evidence request stdout_max stderr_max timeout_secs evidence_path warnings get_output =
      if not (get_output.exit_code == 0) then lift (success get_output) else do
        verify_output ←
            run_command_and_capture host (verify_command request evidence_path) stdout_max
              stderr_max timeout_secs
        lift (
            success (record {
              stdout = verify_output.stdout;
              stderr =
                  String.◌++◌ warnings
                    (join_stderr (trim_end get_output.stderr) (trim_end verify_output.stderr));
              exit_code = verify_output.exit_code;
            }))

  unfoldable pub execute_attestation_request : AttestationRequest → ℕ → ℕ → ℕ → Io String ExecOutput
  execute_attestation_request request stdout_max stderr_max timeout_secs = do
    loaded ←
        load_reference_values (reference_value_load_command guest_reference_values) stdout_max
          stderr_max timeout_secs
    at ← now host
    get_output ←
        run_command_and_capture host (get_evidence_command request (evidence_path at)) stdout_max
          stderr_max timeout_secs
    verify_evidence request stdout_max stderr_max timeout_secs (evidence_path at)
        (String.◌++◌
          (policy_warning
            (ensure_attestation_policy host guest_policy_source (attestation_work_dir host)))
          loaded)
        get_output
    where
      evidence_path : ℕ → String
      evidence_path at =
          concat ("/tmp/cai-pep-attestation-" ∷ show at ∷ "-" ∷ show host.process_id ∷ ".json" ∷ [])
