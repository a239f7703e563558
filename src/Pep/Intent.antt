-- ===== src/Pep/Intent.antt =====
-- cai-pep/src/main.rs: `handle_intent`, from a request to its result, and the response to it.
pub mod Decided
pub mod Confined
use confidential_agent.Common.{
  ℕ, ◌-◌, String, Bool, true, false, not, Option, none, some, List, [], ◌∷◌, if◌then◌else◌, ◌==◌,
  string_eq, leb,
}
use Prim.Native.String
use confidential_agent.Common.Json.{Json, Members}
use confidential_agent.Spec.Types.{PathBuf}
use confidential_agent.Pep.{
  Outcome, fail, success, panics, map_err, World, Io, PepConfig, PepError, policy_deny, bad_request,
  execution, IntentEnvelope, IntentSuccessResult, IntentResponse, ExecOutput, AttestationRequest,
}
use confidential_agent.Pep.Host.{Host, ◌>>=◌, ◌>>◌, lift, unique_id, now, wrap_err}
use confidential_agent.Pep.Response.{response_of}
use confidential_agent.Pep.Policy.{
  canonicalize_existing_dir, ensure_allowed_workdir, ensure_command_policy, summarize_command,
  json_field,
}
use confidential_agent.Pep.Attestation.{try_parse_attestation_shell_command}
use confidential_agent.Pep.Sandbox.{run_exec_in_docker, execute_attestation_request}

-- The first two checks.
unfoldable pub check_method : IntentEnvelope → Outcome PepError (Unit {0})
check_method request =
    if not (request.method == "submit_intent")
    then fail (bad_request (String.◌++◌ "unsupported method: " request.method))
    else if not (request.params.tool_name == "exec")
    then fail (bad_request (String.◌++◌ "unsupported tool_name: " request.params.tool_name))
    else success tt

-- The larger of two numbers.
abbrev at_least : ℕ → ℕ → ℕ
at_least least n = if leb least n then n else least

-- Where a command was run, and what came of it.
pub record Executed : Type 0 where
  pub backend : String
  pub sandbox_profile : String
  pub exec : ExecOutput

abbrev pub failed_execution : PathBuf → String → String → String → PepError
failed_execution workdir mode audit_id message = execution message audit_id (
    Json.obj (
      Members.member "mode" (Json.str mode)
        (Members.member "workdir" (Json.str workdir) Members.end)))

module _ (host : Host) where
  unfoldable pub execute :
      PepConfig → PathBuf → String → String → Option AttestationRequest → Io PepError Executed
  execute config workdir command audit_id (some attestation) = do
    exec ← wrap_err (failed_execution workdir "host-attestation" audit_id) (
        execute_attestation_request host attestation config.stdout_max_bytes config.stderr_max_bytes
          (at_least 60 config.timeout_secs))
    lift (
        success (record {
          backend = "host-attestation";
          sandbox_profile = "attestation-helper";
          exec = exec;
        }))
  execute config workdir command audit_id none = do
    exec ←
        wrap_err (failed_execution workdir "docker" audit_id)
          (run_exec_in_docker host config workdir command)
    lift (success (record { backend = "docker"; sandbox_profile = "default-docker"; exec = exec }))

  -- The result, once the audit line is written, which summarizes the command.
  unfoldable pub report : String → ℕ → String → Executed → Io PepError IntentSuccessResult
  report command started audit_id executed = do
    ended ← now host
    summary ← lift (summarize_command command)
    lift (
        success (record {
          status = "ok";
          decision = "allow";
          backend = executed.backend;
          sandbox_profile = executed.sandbox_profile;
          stdout = executed.exec.stdout;
          stderr = executed.exec.stderr;
          exit_code = executed.exec.exit_code;
          duration_ms = ended - started;
          audit_id = audit_id;
        }))

  abbrev pub invalid_workdir : String → String → String → PepError
  invalid_workdir workdir audit_id e =
      policy_deny "fs.invalid_workdir" (String.◌++◌ "workdir is invalid: " e)
        (json_field "workdir" (Json.str workdir)) audit_id

  unfoldable pub handle_intent : IntentEnvelope → PepConfig → Io PepError IntentSuccessResult
  handle_intent request config = do
    lift (check_method request)
    audit_id ← unique_id host "audit"
    started ← now host
    canonical_workdir ← lift (
        map_err (invalid_workdir request.params.params.workdir audit_id)
          (canonicalize_existing_dir host request.params.params.workdir))
    lift (ensure_allowed_workdir host canonical_workdir config audit_id)
    lift (ensure_command_policy request.params.params.command config audit_id)
    attestation ←
        lift (try_parse_attestation_shell_command host request.params.params.command audit_id)
    executed ← execute config canonical_workdir request.params.params.command audit_id attestation
    report request.params.params.command started audit_id executed

  -- The response of `handle_stream` to a request that was parsed.
  unfoldable pub handle_stream : IntentEnvelope → PepConfig → World → Option IntentResponse × World
  handle_stream request config w =
      let (result, w') = (handle_intent request config).run w in (response_of request.id result, w')
