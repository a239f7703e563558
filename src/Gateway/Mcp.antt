-- ===== src/Gateway/Mcp.antt =====
-- gateway/src/lib.rs: `handle_mcp_connection`, request by request, on the audit store and the lines of its
-- file. A request comes with the clock, with how far the write to the audit file gets, and with whether
-- the response can be written to the socket.
pub mod Respond
pub mod Answers
pub mod Audited
mod Examples
use confidential_agent.Common.{
  ℕ, String, Bool, true, false, not, ◌&&◌, ◌||◌, Option, none, some, List, [], ◌∷◌, ◌++◌, ◌==◌,
  nat_eq, string_eq, if◌then◌else◌, length, Error, Result, ok, err, bad, Field, Problem, ◌>>=◌,
}
use Prim.Native.String
use confidential_agent.Common.Text.{show, lower_eq}
use confidential_agent.Common.BTree.{BTreeMap}
use confidential_agent.Common.Json
use confidential_agent.Common.Json.{Json, Elems, Members}
use confidential_agent.Gateway.{Bytes, VerifiedCaller}
use confidential_agent.Gateway.Canonical.{Encoders, hash_json_value}
use confidential_agent.Gateway.Audit.{
  AuditInput, AuditStore, AuditFile, AuditStatus, AuditVerifyReport, AuditError, LineFormat, Write,
  append, status, verify_path,
}
use confidential_agent.Gateway.Tools.{
  JsonRpcRequest, parse_json_rpc, is_virtual_tool, get_in, text_in, inject_virtual_tools_value,
}
use confidential_agent.Gateway.Mcp.Respond.{
  HttpRequest, HttpResponse, McpHost, json_rpc_error_response, respond, audit_input,
}

-- Whether the socket's `write_all` goes through; where it does not, some of the bytes may be out.
pub data Delivery : Type 0 where
  delivered broken : Delivery

abbrev is_delivered : Delivery → Bool
is_delivered delivered = true
is_delivered broken = false

-- One request of a connection.
pub record Exchange : Type 0 where
  pub request : HttpRequest
  pub now : ℕ
  pub write : Write
  pub delivery : Delivery

-- What is written to the socket, to its end or not: an answer to a request with a method, and two kinds of errors.
pub data Sent : Type 0 where
  answered withheld invalid : HttpResponse → Sent

-- Where the connection stands: what was sent, the store with its file, and whether it goes on.
pub record Connection (format : LineFormat) : Type 0 where
  pub sent : List Sent
  pub store : AuditStore
  pub file : AuditFile format
  pub open_for_more : Bool

module _ (host : McpHost) (encoders : Encoders) (format : LineFormat)
    (caller : VerifiedCaller) where
  -- After the append: the answer goes out, or an error in its place, which ends the connection.
  abbrev pub release :
      Exchange
      → JsonRpcRequest
      → HttpResponse
      → Connection format
      → Result AuditStore × AuditFile format
      → Connection format
  release exchange rpc response c (ok store, file) = record {
    sent = c.sent ++ (answered response ∷ []);
    store = store;
    file = file;
    open_for_more = not exchange.request.connection_close && is_delivered exchange.delivery;
  }
  release exchange rpc response c (err e, file) = record c {
    sent =
        c.sent
        ++ (withheld (
              json_rpc_error_response host rpc.id "-32001" (
                String.◌++◌ "audit append failed; upstream response withheld: "
                  (host.error_text e)))
            ∷ []);
    file = file;
    open_for_more = false;
  }

  abbrev pub audit_and_release :
      Exchange
      → JsonRpcRequest
      → String
      → Connection format
      → Result HttpResponse
      → Connection format
  audit_and_release exchange rpc method c (err e) = record c { open_for_more = false }
  audit_and_release exchange rpc method c (ok response) = release exchange rpc response c (
      append encoders format exchange.write
        (audit_input host encoders caller exchange.now rpc method response) c.store c.file)

  -- One round of the loop, by the request's method.
  abbrev pub round :
      Exchange → JsonRpcRequest → Option String → Connection format → Connection format
  round exchange rpc none c = record c {
    sent =
        c.sent
        ++ (invalid (
              json_rpc_error_response host rpc.id "-32600"
                "invalid MCP JSON-RPC request: missing method")
            ∷ []);
    open_for_more = not exchange.request.connection_close && is_delivered exchange.delivery;
  }
  round exchange rpc (some method) c = audit_and_release exchange rpc method c (
      respond host encoders exchange.request rpc (status c.store)
        (verify_path encoders format (some c.file.lines)) exchange.now)

  unfoldable pub handle_mcp_connection : List Exchange → Connection format → Connection format
  handle_mcp_connection [] c = c
  handle_mcp_connection (exchange ∷ exchanges) c =
      let rpc = parse_json_rpc host.read_json exchange.request.body in
      let next = round exchange rpc rpc.method c in
      if c.open_for_more then handle_mcp_connection exchanges next else c
