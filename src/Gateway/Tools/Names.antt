-- ===== src/Gateway/Tools/Names.antt =====
-- The names in a list of tools, as definitions are pushed that were missing.
use confidential_agent.Common.{
  String, Bool, true, false, Option, none, some, List, [], ◌∷◌, ◌≡◌, refl, sym, ap, ◌∙◌, subst,
  arith, All, contains, ◌==◌, string_eq, if◌then◌else◌, Bool-cases, inl, inr,
}
use confidential_agent.Common.Json
use confidential_agent.Common.Json.{Json, Elems, Members}
use confidential_agent.Gateway.Tools.{
  virtual_tool_definitions, tool_names, push, push_missing, replace, text_in, cons_text, is_listed,
}

pub find_member-replace :
    (key : String) (v w : Json) (members : Members)
    → Json.find_member key members ≡ some w
    → Json.find_member key (replace key v members) ≡ some v
unfolding replace Json.find_member
find_member-replace key v w Members.end h = cc
find_member-replace key v w (Members.member k u rest) h = elim (Bool-cases (k == key)) [
  | inl e ↦ rw e (rw e refl)
  | inr e ↦ rw e (rw e (find_member-replace key v w rest (rw e at h)))
]

pub replace-find_member :
    (key : String) (v : Json) (members : Members)
    → Json.find_member key members ≡ some v
    → replace key v members ≡ members
unfolding replace Json.find_member
replace-find_member key v Members.end h = refl
replace-find_member key v (Members.member k u rest) h = elim (Bool-cases (k == key)) [
  | inl e ↦ rw e (ap (λ (x : Json). Members.member k x rest) (sym (some_injective (rw e at h))))
  | inr e ↦ rw e (ap (Members.member k u) (replace-find_member key v rest (rw e at h)))
]
  where
    some_injective : {a b : Json} → ◌≡◌ {A = Option Json} (some a) (some b) → a ≡ b
    some_injective h = cc

-- Two texts have a name in common with a list, or the list goes on.
contains-cons_text :
    (o : Option String) (names : List String) (n : String)
    → contains names n ≡ true
    → contains (cons_text o names) n ≡ true
unfolding contains
contains-cons_text none names n h = h
contains-cons_text (some m) names n h = ground (arith, h)

cons_text-keeps :
    (o : Option String) (names more : List String) (n : String)
    → (contains names n ≡ true → contains more n ≡ true)
    → contains (cons_text o names) n ≡ true
    → contains (cons_text o more) n ≡ true
unfolding contains
cons_text-keeps none names more n sub h = sub h
cons_text-keeps (some m) names more n sub h = elim (Bool-cases (m == n)) [
  | inl e ↦ rw e refl
  | inr e ↦ rw e (sub (rw e at h))
]

push-keeps :
    (d : Json) (items : Elems) (n : String)
    → contains (tool_names items) n ≡ true
    → contains (tool_names (push d items)) n ≡ true
unfolding push tool_names contains
push-keeps d Elems.nil n h = cc
push-keeps d (Elems.cons item items) n h =
    cons_text-keeps (text_in (Json.get item "name")) (tool_names items) (tool_names (push d items))
      n (push-keeps d items n) h

push-lists :
    (d : Json) (items : Elems) (n : String)
    → text_in (Json.get d "name") ≡ some n
    → contains (tool_names (push d items)) n ≡ true
unfolding push tool_names contains
push-lists d Elems.nil n h = rw h (rw ((string_eq.beq_iff n n).1 refl) refl)
push-lists d (Elems.cons item items) n h =
    contains-cons_text (text_in (Json.get item "name")) (tool_names (push d items)) n
      (push-lists d items n h)

push_missing-keeps :
    (existing : List String) (definitions : List Json) (items : Elems) (n : String)
    → contains (tool_names items) n ≡ true
    → contains (tool_names (push_missing existing definitions items)) n ≡ true
unfolding push_missing
push_missing-keeps existing [] items n h = h
push_missing-keeps existing (d ∷ definitions) items n h =
    elim (Bool-cases (is_listed existing (text_in (Json.get d "name")))) [
      | inl e ↦ rw e (push_missing-keeps existing definitions items n h)
      | inr e ↦
          rw e (push_missing-keeps existing definitions (push d items) n (push-keeps d items n h))
    ]

-- The definition has a name, and the name is in the list.
pub record IsListed (names : List String) (d : Json) : Type 0 where
  pub name : String
  pub named : text_in (Json.get d "name") ≡ some name
  pub listed : contains names name ≡ true

abbrev IsNamed : Json → Type 0
IsNamed d = (n : String) × (text_in (Json.get d "name") ≡ some n)

push_missing-step :
    (existing : List String) (d : Json) (definitions : List Json) (items : Elems) (n : String)
    (b : Bool)
    → text_in (Json.get d "name") ≡ some n
    → contains existing n ≡ b
    → push_missing existing (d ∷ definitions) items
      ≡ push_missing existing definitions (if b then items else push d items)
unfolding push_missing
push_missing-step existing d definitions items n b e f =
    ap
      (λ (o : Option String).
        push_missing existing definitions (if is_listed existing o then items else push d items))
      e
    ∙ ap (λ (t : Bool). push_missing existing definitions (if t then items else push d items)) f

pub push_missing-AreListed :
    (existing : List String) (definitions : List Json) (items : Elems)
    → ((n : String) → contains existing n ≡ true → contains (tool_names items) n ≡ true)
    → All IsNamed definitions
    → All (IsListed (tool_names (push_missing existing definitions items))) definitions
push_missing-AreListed existing [] items sub named = tt
push_missing-AreListed existing (d ∷ definitions) items sub ((n, e), named) =
    elim (Bool-cases (contains existing n)) [
      | inl f ↦
          subst (λ (xs : Elems). All (IsListed (tool_names xs)) (d ∷ definitions))
            (sym (push_missing-step existing d definitions items n true e f))
            (
              record {
                name = n;
                named = e;
                listed = push_missing-keeps existing definitions items n (sub n f);
              },
              push_missing-AreListed existing definitions items sub named,
            )
      | inr f ↦
          subst (λ (xs : Elems). All (IsListed (tool_names xs)) (d ∷ definitions))
            (sym (push_missing-step existing d definitions items n false e f))
            (
              record {
                name = n;
                named = e;
                listed =
                    push_missing-keeps existing definitions (push d items) n
                      (push-lists d items n e);
              },
              push_missing-AreListed existing definitions (push d items)
                  (λ m h. push-keeps d items m (sub m h)) named,
            )
    ]

pub push_missing-listed :
    (existing : List String) (definitions : List Json) (items : Elems)
    → All (IsListed existing) definitions
    → push_missing existing definitions items ≡ items
unfolding push_missing
push_missing-listed existing [] items h = refl
push_missing-listed existing (d ∷ definitions) items (l, h) =
    push_missing-step existing d definitions items l.name true l.named l.listed
    ∙ push_missing-listed existing definitions items h

pub definitions-AreNamed : All IsNamed virtual_tool_definitions
unfolding virtual_tool_definitions Json.get Json.find_member Json.as_str
definitions-AreNamed =
    (("tee_attest", refl), (("audit_status", refl), (("audit_verify", refl), tt)))

pub json_injective : {a b : Json} → ◌≡◌ {A = Option Json} (some a) (some b) → a ≡ b
json_injective h = cc
