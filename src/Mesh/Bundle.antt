-- ===== src/Mesh/Bundle.antt =====
-- What the bundle of the mesh holds.
use mathlib.Core.Option
use confidential_agent.Common.{
  ℕ, String, Bool, true, false, ◌&&◌, Option, none, some, List, [], ◌∷◌, ◌≡◌, inl, inr, refl, arith,
  ◌==◌, string_eq, if◌then◌else◌, Bool-cases, Option-cases, ap, ◌∙◌,
}
use confidential_agent.Common.Json.{Json}
use confidential_agent.Common.BTree.{BTreeMap, insert, keys, get, contains_key, filter_keys}
use confidential_agent.Common.BTree.Laws.{
  IsSorted, get-insert, insert-IsSorted, get-filter_keys, contains_key-eq-false_iff,
}
use confidential_agent.Schema.{LocalServiceState, MeshService, is_mesh_member}
use confidential_agent.Mesh.{mesh_service, service_map_from, render_mesh_bundle_at}

-- `a.or(b)` and `a.and(b)`
abbrev or {ℓ} : {A : Type ℓ} → Option A → Option A → Option A
or none b = b
or (some a) b = some a

abbrev and {ℓ} : {A B : Type ℓ} → Option A → Option B → Option B
and none b = none
and (some a) b = b

abbrev candidate : String → LocalServiceState → Option LocalServiceState
candidate id state = if is_mesh_member state && state.service_id == id then some state else none

-- The last of the services with this id that is a member of the mesh.
unfoldable pub last_member : String → List LocalServiceState → Option LocalServiceState
last_member id [] = none
last_member id (state ∷ states) = or (last_member id states) (candidate id state)

get-service_map_from :
    (id : String) (m : BTreeMap MeshService) (states : List LocalServiceState)
    → get id (service_map_from m states)
      ≡ or (Option.map mesh_service (last_member id states)) (get id m)
unfolding service_map_from last_member
get-service_map_from id m [] = refl
get-service_map_from id m (state ∷ states) = elim (Bool-cases (is_mesh_member state)) [
  | inl e ↦ rw e (
      get-service_map_from id (insert state.service_id (mesh_service state) m) states
      ∙ rw (get-insert state.service_id id (mesh_service state) m)
          (inserted (last_member id states) (state.service_id == id)))
  | inr e ↦ rw e (get-service_map_from id m states ∙ skipped (last_member id states))
]
  where
    inserted :
        (o : Option LocalServiceState) (b : Bool)
        → or (Option.map mesh_service o) (if b then some (mesh_service state) else get id m)
          ≡ or (Option.map mesh_service (or o (if b then some state else none))) (get id m)
    inserted none true = refl
    inserted none false = refl
    inserted (some found) b = refl

    skipped :
        (o : Option LocalServiceState)
        → or (Option.map mesh_service o) (get id m)
          ≡ or (Option.map mesh_service (or o none)) (get id m)
    skipped none = refl
    skipped (some found) = refl

service_map_from-IsSorted :
    (m : BTreeMap MeshService) (states : List LocalServiceState)
    → IsSorted m
    → IsSorted (service_map_from m states)
unfolding service_map_from
service_map_from-IsSorted m [] h = h
service_map_from-IsSorted m (state ∷ states) h = elim (Bool-cases (is_mesh_member state)) [
  | inl e ↦ rw e (
      service_map_from-IsSorted (insert state.service_id (mesh_service state) m) states
        (insert-IsSorted state.service_id (mesh_service state) m h))
  | inr e ↦ rw e (service_map_from-IsSorted m states h)
]

-- The values of those ids alone that have a member.
abbrev pub OfMembers : List LocalServiceState → BTreeMap Json → BTreeMap Json → Type 0
OfMembers states values kept =
    (id : String) → get id kept ≡ and (last_member id states) (get id values)

get-services :
    (id : String) (states : List LocalServiceState)
    → get id (service_map_from [] states) ≡ Option.map mesh_service (last_member id states)
unfolding get
get-services id states =
    get-service_map_from id [] states ∙ or-none (Option.map mesh_service (last_member id states))
  where
    or-none : (o : Option MeshService) → or o none ≡ o
    or-none none = refl
    or-none (some s) = refl

kept-OfMembers :
    (states : List LocalServiceState) (values : BTreeMap Json)
    → OfMembers states values
        (filter_keys (λ id. contains_key id (service_map_from [] states)) values)
kept-OfMembers states values id =
    let services = service_map_from [] states in
    let kept = get-filter_keys (λ id. contains_key id services) id values in
    elim (Option-cases (last_member id states)) [
      | inl e ↦
          let absent =
            (contains_key-eq-false_iff id services).1
              (get-services id states ∙ ap (Option.map mesh_service) e) in
          rw e (kept ∙ rw absent refl)
      | inr (state, e) ↦
          let present : contains_key id services ≡ true = ground (
            arith,
            contains_key-eq-false_iff id services,
            get-services id states ∙ ap (Option.map mesh_service) e,
          ) in
          rw e (kept ∙ rw present refl)
    ]

-- The bundle's services are in the order of their ids, an id is listed exactly if a state with it
-- is a member of the mesh, by the last such state, and both maps of reference values keep the
-- values of those ids alone.
pub render_mesh_bundle_lem :
    (states : List LocalServiceState) (sample_values rekor_values : BTreeMap Json)
    (generation updated_at : ℕ)
    → let bundle = render_mesh_bundle_at states sample_values rekor_values generation updated_at in
      IsSorted bundle.services
      × ((id : String) → get id bundle.services ≡ Option.map mesh_service (last_member id states))
      × OfMembers states sample_values bundle.reference_values
      × OfMembers states rekor_values bundle.rekor_reference_values
unfolding render_mesh_bundle_at keys
render_mesh_bundle_lem states sample_values rekor_values generation updated_at = (
  service_map_from-IsSorted [] states tt,
  λ id. get-services id states,
  kept-OfMembers states sample_values,
  kept-OfMembers states rekor_values,
)
