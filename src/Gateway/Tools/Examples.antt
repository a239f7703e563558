-- ===== src/Gateway/Tools/Examples.antt =====
-- A list of two tools, one of which has the name of a virtual tool.
use mathlib.Core.Option.{get_or}
use confidential_agent.Common.{some, ◌≡◌, refl, All}
use confidential_agent.Common.Json
use confidential_agent.Common.Json.{Json, Elems, Members}
use confidential_agent.Gateway.Tools.{
  tool, get_in, tool_names, virtual_tool_definitions, replace, inject_virtual_tools_value,
}
use confidential_agent.Gateway.Tools.Names.{IsListed}
use confidential_agent.Gateway.Tools.Listed.{inject_virtual_tools_value-AreListed}

abbrev answer : Json
answer = Json.obj (
    Members.member "id" (Json.num 1) (
      Members.member "result"
        (Json.obj (
          Members.member "tools"
            (Json.arr (
              Elems.cons (tool "search" "Search" Members.end)
                (Elems.cons (tool "audit_status" "Another" Members.end) Elems.nil)))
            Members.end))
        Members.end))

abbrev extended : Json
extended = get_or (inject_virtual_tools_value answer) Json.null

inject_virtual_tools_value-AreListed_example :
    ((items : Elems) × (get_in "tools" (Json.get extended "result") ≡ some (Json.arr items))
      × All (IsListed (tool_names items)) virtual_tool_definitions)
    × (inject_virtual_tools_value extended ≡ some extended)
unfolding inject_virtual_tools_value replace Json.find_member
inject_virtual_tools_value-AreListed_example =
    inject_virtual_tools_value-AreListed answer extended refl
