-- ===== src/Pep/Submit.antt =====
-- cai-pep/src/main.rs: the command lines of `serve` and `submit`. The clock is an argument.
use Prim.Native.String
use confidential_agent.Common.{ℕ, String, Option, none, some, List, if◌then◌else◌, ◌==◌, string_eq}
use confidential_agent.Common.Text.{show}
use confidential_agent.Common.Json.{Json, Members}
use confidential_agent.Pep.{
  Outcome, success, ok_or, ◌>>=◌, PepConfig, IntentEnvelope, default_socket_path,
}
use confidential_agent.Pep.Attestation.{Flag, takes, unknown, parse_flags}

pub record ServeArgs : Type 0 where
  pub config_path : String
  pub socket_override : Option String

abbrev pub default_serve_args : ServeArgs
default_serve_args = record { config_path = "/etc/cai/pep/policy.json"; socket_override = none }

unfoldable pub serve_flag : String → Flag ServeArgs
serve_flag flag =
    if flag == "--config"
    then takes (λ value args. record args { config_path = value })
    else if flag == "--socket"
    then takes (λ value args. record args { socket_override = some value })
    else unknown

abbrev override : Option String → PepConfig → PepConfig
override none config = config
override (some socket) config = record config { socket_path = socket }

-- The configuration that `run_serve` serves; `load` is `PepConfig::load`.
unfoldable pub serve_config :
    (String → Outcome String PepConfig) → List String → Outcome String PepConfig
serve_config load args =
    parse_flags serve_flag "unknown serve argument: " default_serve_args args >>= λ read.
    load read.config_path >>= λ config. success (override read.socket_override config)

pub record SubmitArgs : Type 0 where
  pub socket_path : String
  pub command : Option String
  pub workdir : String
  pub run_id : String
  pub session_key : String
  pub agent_id : String
  pub skill_id : String

unfoldable pub default_submit_args : ℕ → SubmitArgs
default_submit_args now = record {
  socket_path = default_socket_path;
  command = none;
  workdir = "/workspace";
  run_id = String.◌++◌ "manual-" (show now);
  session_key = "manual:cli";
  agent_id = "manual";
  skill_id = "cai-pep-cli";
}

unfoldable pub submit_flag : String → Flag SubmitArgs
submit_flag flag =
    if flag == "--socket"
    then takes (λ value args. record args { socket_path = value })
    else if flag == "--command"
    then takes (λ value args. record args { command = some value })
    else if flag == "--workdir"
    then takes (λ value args. record args { workdir = value })
    else if flag == "--run-id"
    then takes (λ value args. record args { run_id = value })
    else if flag == "--session-key"
    then takes (λ value args. record args { session_key = value })
    else if flag == "--agent-id"
    then takes (λ value args. record args { agent_id = value })
    else if flag == "--skill-id"
    then takes (λ value args. record args { skill_id = value })
    else unknown

-- The request that `run_submit` sends, with the socket's path.
unfoldable pub submit_request : ℕ → List String → Outcome String (String × IntentEnvelope)
submit_request now args =
    parse_flags submit_flag "unknown submit argument: " (default_submit_args now) args >>= λ read.
    ok_or read.command "--command is required" >>= λ command. success (
      read.socket_path,
      record {
        method = "submit_intent";
        id = String.◌++◌ "req-" (show now);
        params = record {
          version = 1;
          run_id = read.run_id;
          session_key = read.session_key;
          agent_id = read.agent_id;
          tool_name = "exec";
          skill_id = read.skill_id;
          params = record { command = command; workdir = read.workdir };
          request_context =
              some (Json.obj (Members.member "provider" (Json.str "manual-cli") Members.end));
          security_profile_ref = none;
          issued_at_ms = now;
        };
      },
    )
