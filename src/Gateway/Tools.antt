-- ===== src/Gateway/Tools.antt =====
-- gateway/src/lib.rs: the gateway's own tools in a list of tools, and what is read of a JSON-RPC request.
-- serde_json's reading of bytes is an argument.
pub mod Names
pub mod Listed
mod Examples
use confidential_agent.Common.{
  String, Bool, true, false, ◌||◌, Option, none, some, List, [], ◌∷◌, contains, ◌==◌, string_eq,
  if◌then◌else◌,
}
use confidential_agent.Common.Json
use confidential_agent.Common.Json.{Json, Elems, Members}
use confidential_agent.Gateway.{Bytes}

pub record JsonRpcRequest : Type 0 where
  pub id : Option Json
  pub method : Option String
  pub params : Option Json
  pub tool_name : Option String

-- `value.get(key)` on a value that may be missing.
abbrev pub get_in : String → Option Json → Option Json
get_in key none = none
get_in key (some value) = Json.get value key

abbrev pub text_in : Option Json → Option String
text_in none = none
text_in (some value) = Json.as_str value

abbrev pub rpc_of : Option Json → JsonRpcRequest
rpc_of none = record { id = none; method = none; params = none; tool_name = none }
rpc_of (some value) = record {
  id = Json.get value "id";
  method = text_in (Json.get value "method");
  params = Json.get value "params";
  tool_name = text_in (get_in "name" (Json.get value "params"));
}

unfoldable pub parse_json_rpc : (Bytes → Option Json) → Bytes → JsonRpcRequest
parse_json_rpc read_json body = rpc_of (read_json body)

unfoldable pub is_virtual_tool : String → Bool
is_virtual_tool name = name == "tee_attest" || (name == "audit_status" || name == "audit_verify")

abbrev pub tool : String → String → Members → Json
tool name description properties = Json.obj (
    Members.member "description" (Json.str description) (
      Members.member "inputSchema"
        (Json.obj (
          Members.member "properties" (Json.obj properties)
            (Members.member "type" (Json.str "object") Members.end)))
        (Members.member "name" (Json.str name) Members.end)))

unfoldable pub virtual_tool_definitions : List Json
virtual_tool_definitions =
    tool "tee_attest" "Get TEE evidence bound to the current gateway audit chain" (
      Members.member "nonce" (Json.obj (Members.member "type" (Json.str "string") Members.end))
        Members.end)
    ∷ tool "audit_status" "Get MCP audit chain status" Members.end
    ∷ tool "audit_verify" "Verify MCP audit chain integrity" Members.end
    ∷ []

abbrev pub cons_text : Option String → List String → List String
cons_text none names = names
cons_text (some name) names = name ∷ names

-- The names in a list of tools; a tool without one is passed over.
unfoldable pub tool_names : Elems → List String
tool_names Elems.nil = []
tool_names (Elems.cons item items) = cons_text (text_in (Json.get item "name")) (tool_names items)

-- `tools.push(tool)`
unfoldable pub push : Json → Elems → Elems
push item Elems.nil = Elems.cons item Elems.nil
push item (Elems.cons head items) = Elems.cons head (push item items)

abbrev pub is_listed : List String → Option String → Bool
is_listed existing none = false
is_listed existing (some name) = contains existing name

-- The loop that pushes each definition whose name is not there.
unfoldable pub push_missing : List String → List Json → Elems → Elems
push_missing existing [] items = items
push_missing existing (definition ∷ definitions) items = push_missing existing definitions (
    if is_listed existing (text_in (Json.get definition "name"))
    then items
    else push definition items)

-- A value put in the place of a member's.
unfoldable pub replace : String → Json → Members → Members
replace key v Members.end = Members.end
replace key v (Members.member k w rest) =
    let more = Members.member k w (replace key v rest) in
    if k == key then Members.member k v rest else more

-- `get_mut(key)` and what is made of it, or `none` where there is nothing to change.
abbrev pub replaced : String → Members → Option Json → Option Json
replaced key members none = none
replaced key members (some v) = some (Json.obj (replace key v members))

abbrev pub inject_items : Option Json → Option Json
inject_items (some (Json.arr items)) =
    some (Json.arr (push_missing (tool_names items) virtual_tool_definitions items))
inject_items _ = none

abbrev pub inject_result : Option Json → Option Json
inject_result (some (Json.obj members)) =
    replaced "tools" members (inject_items (Json.find_member "tools" members))
inject_result _ = none

-- The value with the tools in it, or `none` where the source answers `false`.
unfoldable pub inject_virtual_tools_value : Json → Option Json
inject_virtual_tools_value (Json.obj members) =
    replaced "result" members (inject_result (Json.find_member "result" members))
inject_virtual_tools_value _ = none
