-- ===== src/Pep/Examples.antt =====
-- A machine whose paths resolve to themselves and whose processes end at once.
use confidential_agent.Common.{
  ℕ, ◌*◌, String, true, none, some, List, [], ◌∷◌, ◌≡◌, ◌↔◌, ◌≢◌, refl, arith, All, Any,
}
use confidential_agent.Common.Text.{to_ascii_lowercase}
use confidential_agent.Pep.{
  Outcome, fail, success, World, PepConfig, PepError, IntentEnvelope, IntentErrorResult, ExecOutput,
  Command, AttestationRequest, default_config,
}
use confidential_agent.Pep.Host.{
  Host, Process, Poll, exited, running, Read, got, interrupted, closed,
}
use confidential_agent.Pep.Host.Added.{Extends}
use confidential_agent.Pep.Response.{response_of}
use confidential_agent.Pep.Policy.{ensure_allowed_workdir, ensure_command_policy}
use confidential_agent.Pep.Policy.Denied.{Occurs, ensure_command_policy_iff}
use confidential_agent.Pep.Policy.Allowed.{IsUnder, ensure_allowed_workdir_iff}
use confidential_agent.Pep.Attestation.{default_request, parse_attestation_args}
use confidential_agent.Pep.Attestation.Options.{
  AttestOption, words, requested, parse_attestation_args_iff,
}
use confidential_agent.Pep.Process.{
  capped_reader, nothing_kept, await_exit, rounds, run_command_and_capture_with_cleanup,
}
use confidential_agent.Pep.Process.Capped.{stream, capped_reader_lem}
use confidential_agent.Pep.Process.Awaiting.{EndsAt, Sleeps, await_exit_lem}
use confidential_agent.Pep.Process.Cleanup.{Removes, capture_with_cleanup-Removes}
use confidential_agent.Pep.Intent.{check_method, handle_intent, handle_stream}
use confidential_agent.Pep.Intent.Confined.{IsAuthorized, handle_intent-IsConfined}
use confidential_agent.Pep.Intent.Decided.{handle_stream-refused}

abbrev process : Process
process = record {
  starts = success tt;
  polls = λ round. exited (some 0);
  killed = success none;
  stdout_reads = got (104 ∷ 105 ∷ []) ∷ closed ∷ [];
  stderr_reads = closed ∷ [];
  diagnostic = "";
}

abbrev host : Host
host = record {
  exists = λ path. true;
  canonicalize = λ path. success path;
  is_dir = λ path. true;
  owner = λ path. success (1_000, 1_000);
  read_text = λ path. none;
  read_bytes = λ path. fail "none";
  create_dir_all = λ path. success tt;
  write_file = λ path bytes. success tt;
  parse_json = λ text. none;
  shell_split = λ text. none;
  debug = λ path. path;
  lossy = λ bytes. "hi";
  work_dir = none;
  scratch_file = λ path. success tt;
  process_id = 42;
  now_ms = λ w. 0;
  process = λ w. process;
}

abbrev start : World
start = record { next_id = 0; spawned = [] }

abbrev intent : String → String → IntentEnvelope
intent method command = record {
  method = method;
  id = "req-1";
  params = record {
    version = 1;
    run_id = "run";
    session_key = "key";
    agent_id = "agent";
    tool_name = "exec";
    skill_id = "skill";
    params = record { command = command; workdir = "/workspace/app" };
    request_context = none;
    security_profile_ref = none;
    issued_at_ms = 0;
  };
}

handle_intent-IsConfined_example :
    Extends
      (IsAuthorized host (intent "submit_intent" "ls") default_config)
      start
      ((handle_intent host (intent "submit_intent" "ls") default_config).run start).1
handle_intent-IsConfined_example =
    handle_intent-IsConfined host (intent "submit_intent" "ls") default_config start

abbrev unsupported : IntentErrorResult
unsupported = record {
  code = "BAD_REQUEST";
  message = "unsupported method: get";
  rule_id = none;
  detail = none;
  audit_id = none;
}

differ : unsupported.code ≢ "EXECUTION_FAILED"
differ e = cc

handle_stream-refused_example :
    (handle_stream host (intent "get" "ls") default_config start).1.spawned ≡ []
unfolding handle_stream handle_intent response_of confidential_agent.Pep.Host.◌>>◌
    confidential_agent.Pep.Host.lift check_method
handle_stream-refused_example =
    handle_stream-refused host (intent "get" "ls") default_config start
      (record { id = "req-1"; result = none; error = some unsupported }) unsupported refl refl
      differ

abbrev listing : Command
listing = record { program = "docker"; args = "run" ∷ [] }

capture_with_cleanup-Removes_example :
    Removes host "box"
      (record start { spawned = listing ∷ [] })
      ((run_command_and_capture_with_cleanup host listing 10 10 1 (some "box")).run start).1
unfolding run_command_and_capture_with_cleanup confidential_agent.Pep.Host.◌>>=◌
    confidential_agent.Pep.Host.wrap_err confidential_agent.Pep.Host.spawn
    confidential_agent.Pep.Process.settle await_exit confidential_agent.Pep.Host.◌>>◌
    confidential_agent.Pep.Process.clean_up confidential_agent.Pep.Process.remove_sandbox
    confidential_agent.Pep.Process.remove_sandbox_with_runtime confidential_agent.Pep.Host.unique_id
    confidential_agent.Pep.Host.lift confidential_agent.Pep.Process.removal
    confidential_agent.Pep.Process.output_of capped_reader confidential_agent.Pep.Process.keep_chunk
capture_with_cleanup-Removes_example =
    capture_with_cleanup-Removes host listing 10 10 1 "box" start
      (record { stdout = "hi"; stderr = "hi"; exit_code = 0 }) refl

abbrev busy : ℕ → Poll
busy round = running (100 * round)

running_injective : (a b : ℕ) → running a ≡ running b → a ≡ b
running_injective a b h = cc

busy-Sleeps : Sleeps 100 busy
busy-Sleeps i elapsed_ms h = omega (arith, running_injective (100 * i) elapsed_ms h)

await_exit_lem_example : (n : ℕ) × EndsAt 250 busy 0 n (await_exit (rounds 250 100) 250 0 busy)
await_exit_lem_example = await_exit_lem 100 250 busy (omega arith) busy-Sleeps

capped_reader_lem_example :
    capped_reader 3 (got (1 ∷ 2 ∷ []) ∷ interrupted ∷ got (3 ∷ 4 ∷ []) ∷ closed ∷ []) nothing_kept
    ≡ record { buf = 1 ∷ 2 ∷ 3 ∷ []; truncated = true }
unfolding stream
capped_reader_lem_example =
    capped_reader_lem 3 (got (1 ∷ 2 ∷ []) ∷ interrupted ∷ got (3 ∷ 4 ∷ []) ∷ closed ∷ [])

ensure_command_policy_iff_example : (ensure_command_policy "ls" default_config "a" ≡ success tt) ↔ (
    All
      (λ (p : String). ¬ Occurs (to_ascii_lowercase p) (to_ascii_lowercase "ls"))
      default_config.denied_command_patterns
    × All
        (λ (p : String). ¬ Occurs (to_ascii_lowercase p) (to_ascii_lowercase "ls"))
        default_config.denied_path_prefixes)
ensure_command_policy_iff_example = ensure_command_policy_iff "ls" default_config "a"

ensure_allowed_workdir_iff_example :
    (ensure_allowed_workdir host "/workspace/app" default_config "a" ≡ success tt)
    ↔ Any (IsUnder host "/workspace/app") default_config.allowed_workspace_prefixes
ensure_allowed_workdir_iff_example =
    ensure_allowed_workdir_iff host "/workspace/app" default_config "a"

abbrev request : AttestationRequest
request = record default_request { tee = "snp" }

parse_attestation_args_iff_example :
    (parse_attestation_args ("collect-and-verify" ∷ "--tee" ∷ "snp" ∷ []) ≡ success request) ↔ (
      (options : List AttestOption) × ("collect-and-verify" ∷ "--tee" ∷ "snp" ∷ []
        ≡ "collect-and-verify" ∷ words options)
      × (request ≡ requested default_request options))
parse_attestation_args_iff_example =
    parse_attestation_args_iff ("collect-and-verify" ∷ "--tee" ∷ "snp" ∷ []) request
