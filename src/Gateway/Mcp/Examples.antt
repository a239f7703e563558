-- ===== src/Gateway/Mcp/Examples.antt =====
-- A connection with two calls, of which the second's record cannot be written.
use confidential_agent.Common.{
  Option, none, true, false, some, [], ◌∷◌, refl, arith, err, bad, ok, Field, Problem,
}
use confidential_agent.Common.Text
use confidential_agent.Common.Text.{trim, byte_len, show}
use confidential_agent.Common.Json.{Json, Members}
use confidential_agent.Gateway.{VerifiedCaller}
use confidential_agent.Gateway.Canonical.{Encoders}
use confidential_agent.Gateway.Audit.{
  AuditLine, LineFormat, Write, written, unsynced, genesis_entry, empty_store,
}
use confidential_agent.Gateway.Audit.Chain.{IsFormat, after_entry, extended}
use confidential_agent.Gateway.Audit.Reopening.{genesis-Agrees}
use confidential_agent.Gateway.Mcp.Respond.{HttpResponse, McpHost}
use confidential_agent.Gateway.Mcp.{
  Delivery, delivered, Exchange, Connection, handle_mcp_connection,
}
use confidential_agent.Gateway.Mcp.Audited.{IsAudited, handle_mcp_connection-IsAudited}

abbrev crates : Encoders
crates = record { sha256 = λ s. byte_len s ∷ []; quote = λ s. s; number = show }

abbrev format : LineFormat
format = record {
  Line = Option AuditLine;
  text = λ line. "-";
  read_line = λ line. line;
  write_line = λ line. some line;
  join = λ line next. none;
  cut = λ n line. none;
}

format-IsFormat : IsFormat format
unfolding Text.is_empty trim
format-IsFormat = record { reads = λ line. refl; fills = λ line. refl }

abbrev accepted : HttpResponse
accepted = record { status = 202; headers = []; body = [] }

-- Every body is a call of "ping".
abbrev host : McpHost
host = record {
  read_json = λ body. some (Json.obj (Members.member "method" (Json.str "ping") Members.end));
  write_json = λ value. [];
  json_text = λ value. "{}";
  error_text = λ e. "error";
  audit_text = λ e. "error";
  forward = λ request. ok accepted;
  inject_events = λ response. ok response;
  audit_path = "/var/lib/audit";
  upstream_port = 8080;
  tee_attest = λ hash value. err (bad (Field.name "tee_attest") Problem.unsupported);
}

abbrev exchange : Write → Delivery → Exchange
exchange write delivery = record {
  request = record {
    method = "POST";
    path = "/mcp";
    headers = [];
    body = [];
    connection_close = false;
  };
  now = 9;
  write = write;
  delivery = delivery;
}

abbrev caller : VerifiedCaller
caller = record { service_id = "web"; jti = "id-1" }

abbrev start : Connection format
start = record {
  sent = [];
  store = after_entry crates format format-IsFormat (genesis_entry "api" 5) empty_store;
  file = extended crates format format-IsFormat (genesis_entry "api" 5) empty_store [];
  open_for_more = true;
}

handle_mcp_connection-IsAudited_example :
    IsAudited host crates format format-IsFormat caller start (
      handle_mcp_connection host crates format caller
        (exchange written delivered ∷ exchange unsynced delivered ∷ [])
        start)
handle_mcp_connection-IsAudited_example =
    handle_mcp_connection-IsAudited host crates format format-IsFormat caller
      (exchange written delivered ∷ exchange unsynced delivered ∷ []) start (omega arith)
      (genesis-Agrees crates format format-IsFormat "api" 5)
