-- ===== src/Gateway/Tools/Listed.antt =====
-- The gateway's own tools in a list of tools, after an injection.
use confidential_agent.Common.{
  String, Option, none, some, ◌≡◌, refl, sym, ap, ◌∙◌, All, string_eq, inl, inr, Option-cases,
}
use confidential_agent.Common.Json
use confidential_agent.Common.Json.{Json, Elems, Members}
use confidential_agent.Gateway.Tools.{
  virtual_tool_definitions, tool_names, push_missing, replace, replaced, inject_items,
  inject_result, inject_virtual_tools_value, get_in,
}
use confidential_agent.Gateway.Tools.Names.{
  find_member-replace, replace-find_member, push_missing-AreListed, push_missing-listed,
  definitions-AreNamed, json_injective, IsListed,
}

-- The items of a list of tools after the injection.
abbrev injected : Elems → Elems
injected items = push_missing (tool_names items) virtual_tool_definitions items

injected-AreListed :
    (items : Elems) → All (IsListed (tool_names (injected items))) virtual_tool_definitions
injected-AreListed items =
    push_missing-AreListed (tool_names items) virtual_tool_definitions items (λ n h. h)
      definitions-AreNamed

injected-again : (items : Elems) → injected (injected items) ≡ injected items
injected-again items =
    push_missing-listed (tool_names (injected items)) virtual_tool_definitions (injected items)
      (injected-AreListed items)

inject_items-again :
    (o : Option Json) (v : Json) → inject_items o ≡ some v → inject_items (some v) ≡ some v
inject_items-again (some (Json.arr items)) v h =
    ap (λ (x : Json). inject_items (some x)) (sym (json_injective h))
    ∙ ap (λ (xs : Elems). some (Json.arr xs)) (injected-again items)
    ∙ h
inject_items-again o v h = cc

-- A member that is replaced by what an idempotent change makes of it.
replaced-again :
    (key : String) (change : Option Json → Option Json) (members : Members) (v : Json)
    → ((o : Option Json) (w : Json) → change o ≡ some w → (u : Json) × (o ≡ some u))
    → ((o : Option Json) (w : Json) → change o ≡ some w → change (some w) ≡ some w)
    → replaced key members (change (Json.find_member key members)) ≡ some v
    → (more : Members) × (v ≡ Json.obj more)
      × (replaced key more (change (Json.find_member key more)) ≡ some v)
replaced-again key change members v present again h =
    elim (Option-cases (change (Json.find_member key members))) [
      | inl e ↦ absurd (cc (ap (replaced key members) e, h))
      | inr (w, e) ↦
          let (u, there) = present (Json.find_member key members) w e in
          let more = replace key w members in
          let same : some (Json.obj more) ≡ some v = sym (ap (replaced key members) e) ∙ h in
          let found = find_member-replace key w u members there in
          (
            more,
            sym (json_injective same),
            ap (λ (o : Option Json). replaced key more (change o)) found
                ∙ ap (replaced key more) (again (Json.find_member key members) w e)
                ∙ ap (λ (ms : Members). some (Json.obj ms)) (replace-find_member key w more found)
                ∙ same,
          )
    ]

inject_items-present :
    (o : Option Json) (w : Json) → inject_items o ≡ some w → (u : Json) × (o ≡ some u)
inject_items-present none w h = absurd (cc)
inject_items-present (some u) w h = (u, refl)

inject_result-present :
    (o : Option Json) (w : Json) → inject_result o ≡ some w → (u : Json) × (o ≡ some u)
inject_result-present none w h = absurd (cc)
inject_result-present (some u) w h = (u, refl)

inject_result-again :
    (o : Option Json) (v : Json) → inject_result o ≡ some v → inject_result (some v) ≡ some v
inject_result-again (some (Json.obj members)) v h =
    let (more, e, again) =
      replaced-again "tools" inject_items members v inject_items-present inject_items-again h in
    ap (λ (x : Json). inject_result (some x)) e ∙ again
inject_result-again o v h = cc

inject_virtual_tools_value-again :
    (value value' : Json)
    → inject_virtual_tools_value value ≡ some value'
    → inject_virtual_tools_value value' ≡ some value'
unfolding inject_virtual_tools_value
inject_virtual_tools_value-again (Json.obj members) value' h =
    let (more, e, again) =
      replaced-again "result" inject_result members value' inject_result-present inject_result-again
        h in
    ap inject_virtual_tools_value e ∙ again
inject_virtual_tools_value-again value value' h = cc

-- The member that was put in.
replaced-found :
    (key : String) (change : Option Json → Option Json) (members : Members) (v : Json)
    → ((o : Option Json) (w : Json) → change o ≡ some w → (u : Json) × (o ≡ some u))
    → replaced key members (change (Json.find_member key members)) ≡ some v
    → (more : Members) × (w : Json) × (v ≡ Json.obj more)
      × (Json.find_member key more ≡ some w)
      × (change (Json.find_member key members) ≡ some w)
replaced-found key change members v present h =
    elim (Option-cases (change (Json.find_member key members))) [
      | inl e ↦ absurd (cc (ap (replaced key members) e, h))
      | inr (w, e) ↦
          let (u, there) = present (Json.find_member key members) w e in
          (
            replace key w members,
            w,
            sym (json_injective (sym (ap (replaced key members) e) ∙ h)),
            find_member-replace key w u members there,
            e,
          )
    ]

inject_items-found :
    (o : Option Json) (w : Json)
    → inject_items o ≡ some w
    → (items : Elems) × (w ≡ Json.arr (injected items))
inject_items-found (some (Json.arr items)) w h = (items, sym (json_injective h))
inject_items-found o w h = absurd (cc)

inject_result-found :
    (o : Option Json) (w : Json)
    → inject_result o ≡ some w
    → (items : Elems) × (get_in "tools" (some w) ≡ some (Json.arr (injected items)))
unfolding Json.get
inject_result-found (some (Json.obj members)) w h =
    let (more, u, e, found, change) =
      replaced-found "tools" inject_items members w inject_items-present h in
    let (items, f) = inject_items-found (Json.find_member "tools" members) u change in
    (items, ap (λ (x : Json). Json.get x "tools") e ∙ found ∙ ap some f)
inject_result-found o w h = absurd (cc)

-- After the gateway's tools were injected into an answer, the answer's list of tools has each of them by
-- its name, and injecting them again leaves the answer as it is.
pub inject_virtual_tools_value-AreListed :
    (value value' : Json)
    → inject_virtual_tools_value value ≡ some value'
    → ((items : Elems) × (get_in "tools" (Json.get value' "result") ≡ some (Json.arr items))
        × All (IsListed (tool_names items)) virtual_tool_definitions)
      × (inject_virtual_tools_value value' ≡ some value')
unfolding inject_virtual_tools_value Json.get
inject_virtual_tools_value-AreListed (Json.obj members) value' h =
    let (more, w, e, found, change) =
      replaced-found "result" inject_result members value' inject_result-present h in
    let (items, f) = inject_result-found (Json.find_member "result" members) w change in
    (
      (
        injected items,
        ap (λ (x : Json). get_in "tools" (Json.get x "result")) e ∙ ap (get_in "tools") found ∙ f,
        injected-AreListed items,
      ),
      inject_virtual_tools_value-again (Json.obj members) value' h,
    )
inject_virtual_tools_value-AreListed value value' h = absurd (cc)
