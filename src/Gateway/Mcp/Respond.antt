-- ===== src/Gateway/Mcp/Respond.antt =====
-- gateway/src/lib.rs: the response to an MCP request and the record of it. The exchange with the upstream
-- server, an event stream's injection, the attestation client and the texts of JSON are the record
-- `McpHost`.
use confidential_agent.Common.{
  ℕ, String, Bool, false, ◌&&◌, Option, none, some, List, [], ◌∷◌, ◌++◌, ◌==◌, nat_eq, string_eq,
  if◌then◌else◌, length, Error, Result, ok, err, bad, Field, Problem,
}
use Prim.Native.String
use confidential_agent.Common.Text.{show, lower_eq}
use confidential_agent.Common.BTree.{BTreeMap}
use confidential_agent.Common.Json.{Json, Elems, Members}
use confidential_agent.Gateway.{Bytes, VerifiedCaller}
use confidential_agent.Gateway.Canonical.{Encoders, hash_json_value}
use confidential_agent.Gateway.Audit.{AuditInput, AuditStatus, AuditVerifyReport, AuditError}
use confidential_agent.Gateway.Tools.{
  JsonRpcRequest, is_virtual_tool, get_in, text_in, inject_virtual_tools_value,
}

pub record HttpRequest : Type 0 where
  pub method : String
  pub path : String
  pub headers : List (String × String)
  pub body : Bytes
  pub connection_close : Bool

pub record HttpResponse : Type 0 where
  pub status : ℕ
  pub headers : List (String × String)
  pub body : Bytes

pub record McpHost : Type 0 where
  pub read_json : Bytes → Option Json
  pub write_json : Json → Bytes
  pub json_text : Json → String
  pub error_text : Error → String
  pub audit_text : AuditError → String
  pub forward : HttpRequest → Result HttpResponse
  pub inject_events : HttpResponse → Result HttpResponse
  pub audit_path : String
  pub upstream_port : ℕ
  pub tee_attest : String → Json → Result Json

abbrev or_null : Option Json → Json
or_null none = Json.null
or_null (some v) = v

abbrev is_text : String → Option String → Bool
is_text s none = false
is_text s (some t) = t == s

abbrev is_virtual : Option String → Bool
is_virtual none = false
is_virtual (some name) = is_virtual_tool name

unfoldable pub count_members : BTreeMap ℕ → Members
count_members [] = Members.end
count_members ((k, n) ∷ counts) = Members.member k (Json.num n) (count_members counts)

abbrev optional_text : Option String → Json
optional_text none = Json.null
optional_text (some s) = Json.str s

unfoldable pub status_json : String → AuditStatus → Json
status_json path s = Json.obj (
    Members.member "latest_hash" (optional_text s.latest_hash) (
      Members.member "methods_summary" (Json.obj (count_members s.methods_summary)) (
        Members.member "path" (Json.str path)
          (Members.member "total_records" (Json.num s.total_records) Members.end))))

module _ (host : McpHost) where
  unfoldable pub error_items : List AuditError → Elems
  error_items [] = Elems.nil
  error_items (e ∷ errors) = Elems.cons (Json.str (host.audit_text e)) (error_items errors)

  unfoldable pub report_json : AuditVerifyReport → Json
  report_json r = Json.obj (
      Members.member "errors" (Json.arr (error_items r.errors)) (
        Members.member "latest_hash" (optional_text r.latest_hash) (
          Members.member "total_records" (Json.num r.total_records)
            (Members.member "valid" (Json.bool r.valid) Members.end))))

  -- `HttpResponse::json`
  unfoldable pub json_response : ℕ → Json → HttpResponse
  json_response code value =
      let body = host.write_json value in
      record {
        status = code;
        headers =
            ("content-type", "application/json")
            ∷ ("content-length", show (length body))
            ∷ ("connection", "close")
            ∷ [];
        body = body;
      }

  unfoldable pub json_rpc_error_response : Option Json → String → String → HttpResponse
  json_rpc_error_response id code message = json_response 200 (
      Json.obj (
        Members.member "error"
          (Json.obj (
            Members.member "code" (Json.other_num code)
              (Members.member "message" (Json.str message) Members.end)))
          (Members.member "id" (or_null id)
            (Members.member "jsonrpc" (Json.str "2.0") Members.end))))

  unfoldable pub tool_result : Option Json → Json → HttpResponse
  tool_result id result = json_response 200 (
      Json.obj (
        Members.member "id" (or_null id) (
          Members.member "jsonrpc" (Json.str "2.0") (
            Members.member "result"
              (Json.obj (
                Members.member "content"
                  (Json.arr (
                    Elems.cons
                      (Json.obj (
                        Members.member "text" (Json.str (host.json_text result))
                          (Members.member "type" (Json.str "text") Members.end)))
                      Elems.nil))
                  (Members.member "structuredContent" result Members.end)))
              Members.end))))

  abbrev nonce_of : Option String → String
  nonce_of none = ""
  nonce_of (some nonce) = nonce

  -- What an attestation is bound to.
  unfoldable pub binding : AuditStatus → ℕ → String → Json
  binding current now nonce = Json.obj (
      Members.member "audit_chain_digest" (optional_text current.latest_hash) (
        Members.member "audit_total_records" (Json.num current.total_records) (
          Members.member "nonce" (Json.str nonce) (
            Members.member "schema" (Json.str "confidential-agent/gateway-tee-attest-binding/v1") (
              Members.member "timestamp" (Json.num now)
                (Members.member "upstream_port" (Json.num host.upstream_port) Members.end))))))

  unfoldable pub attest : Encoders → AuditStatus → ℕ → String → Result Json
  attest encoders current now nonce =
      host.tee_attest (hash_json_value encoders (binding current now nonce))
        (binding current now nonce)

  -- The result of a virtual tool, on the store and the lines of its file.
  unfoldable pub virtual_tool_result :
      Encoders → JsonRpcRequest → AuditStatus → AuditVerifyReport → ℕ → String → Result Json
  virtual_tool_result encoders rpc current report now name =
      if name == "audit_status"
      then ok (status_json host.audit_path current)
      else if name == "audit_verify"
      then ok (report_json report)
      else if name == "tee_attest"
      then attest encoders current now
          (nonce_of (text_in (get_in "nonce" (get_in "arguments" rpc.params))))
      else err (bad (Field.name "virtual tool") Problem.unsupported)

  abbrev answer_tool : Option Json → Result Json → Result HttpResponse
  answer_tool id (ok result) = ok (tool_result id result)
  answer_tool id (err e) = err e

  unfoldable pub virtual_tool_response :
      Encoders
      → JsonRpcRequest
      → AuditStatus
      → AuditVerifyReport
      → ℕ
      → Option String
      → Result HttpResponse
  virtual_tool_response encoders rpc current report now none =
      err (bad (Field.name "virtual tool name") Problem.required)
  virtual_tool_response encoders rpc current report now (some name) =
      answer_tool rpc.id (virtual_tool_result encoders rpc current report now name)

  abbrev keep_header : String × String → List (String × String) → List (String × String)
  keep_header (name, value) rest =
      if lower_eq name "content-length" then rest else (name, value) ∷ rest

  unfoldable pub without_length : List (String × String) → List (String × String)
  without_length [] = []
  without_length (header ∷ headers) = keep_header header (without_length headers)

  unfoldable pub set_response_body : HttpResponse → Bytes → HttpResponse
  set_response_body response body = record response {
    headers = without_length response.headers ++ (("content-length", show (length body)) ∷ []);
    body = body;
  }

  abbrev with_tools : HttpResponse → Option Json → HttpResponse
  with_tools response none = response
  with_tools response (some value) = set_response_body response (host.write_json value)

  unfoldable pub inject_virtual_tools : HttpResponse → Result HttpResponse
  inject_virtual_tools response = elim (host.read_json response.body) [
    | some value ↦ ok (with_tools response (inject_virtual_tools_value value))
    | none ↦ host.inject_events response
  ]

  -- An error that becomes the answer.
  abbrev or_error : Option Json → String → String → Result HttpResponse → Result HttpResponse
  or_error id code label (ok response) = ok response
  or_error id code label (err e) =
      ok (json_rpc_error_response id code (String.◌++◌ label (host.error_text e)))

  abbrev forwarded : JsonRpcRequest → Result HttpResponse → Result HttpResponse
  forwarded rpc (err e) = or_error rpc.id "-32502" "upstream MCP server unavailable: " (err e)
  forwarded rpc (ok response) =
      if is_text "tools/list" rpc.method then inject_virtual_tools response else ok response

  -- The response to a request with a method, before it is audited.
  unfoldable pub respond :
      Encoders
      → HttpRequest
      → JsonRpcRequest
      → AuditStatus
      → AuditVerifyReport
      → ℕ
      → Result HttpResponse
  respond encoders request rpc current report now =
      if is_text "tools/call" rpc.method && is_virtual rpc.tool_name
      then or_error rpc.id "-32000" ""
          (virtual_tool_response encoders rpc current report now rpc.tool_name)
      else forwarded rpc (host.forward request)

  abbrev hash_of : Encoders → Option Json → Option String
  hash_of encoders none = none
  hash_of encoders (some value) = some (hash_json_value encoders value)

  -- The record of an answer.
  unfoldable pub audit_input :
      Encoders → VerifiedCaller → ℕ → JsonRpcRequest → String → HttpResponse → AuditInput
  audit_input encoders caller now rpc method response = record {
    timestamp = now;
    caller_service_id = caller.service_id;
    caller_jti = caller.jti;
    method = method;
    tool_name = rpc.tool_name;
    params_hash = hash_of encoders rpc.params;
    result_hash = hash_of encoders (get_in "result" (host.read_json response.body));
    http_status = response.status;
  }
