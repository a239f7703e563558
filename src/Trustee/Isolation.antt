-- ===== src/Trustee/Isolation.antt =====
-- The physical paths of the resources of services in the key broker.
use Prim.Native.Nat.{ℕ}
use Prim.Native.Char.{Char, code}
use Prim.Native.String
use confidential_agent.Common.{
  String, Bool, true, false, List, [], ◌∷◌, ◌++◌, string_eq, ◌≡◌, ◌≢◌, refl, sym, ap, ◌∙◌, arith,
  is_whitespace, is_id_char, is_alphanumeric, ok, bind-eq-ok, seq-eq-ok_iff, ok_injective, nat_eqb,
  Bool-cases, inl, inr,
}
use confidential_agent.Common.Text.{
  all_chars, trim, trim_start, trim_end_matches, keep, split, contains_char, is_empty, starts_with,
}
use confidential_agent.Common.Text.Laws.{split-append, split_whole, split_injective}
use text.Mathlib.TextLemmas.{nil-append, cons-append}
use confidential_agent.Trustee.{
  challenge_resource_repository, local_resource_type, validate_trustee_service_id, resource_tag,
  cell, is_tag_char, logical_to_physical_resource_path,
}
use confidential_agent.Trustee.Validity.{IsServiceId, validate_trustee_service_id_iff}

-- A character that is neither white space nor one that `p` takes is not in a text whose trimmed
-- part `p` takes.
clash : (p : ℕ → Bool) (k c : ℕ) → p k ≡ false → p c ≡ true → nat_eqb c k ≡ false
clash p k c out h = elim (Bool-cases (nat_eqb c k)) [
  | inl e ↦ let same : c ≡ k = ground arith in cc (rw same at h)
  | inr e ↦ e
]

module _ (k : ℕ) (solid : is_whitespace k ≡ false) where
  all-contains_char :
      (p : ℕ → Bool) (s : String) → p k ≡ false → all_chars p s ≡ true → contains_char k s ≡ false
  unfolding all_chars contains_char
  all-contains_char p String.[] out h = refl
  all-contains_char p (String.◌∷◌ c s) out h =
      ground (arith, clash p k (code c), all-contains_char p s)

  trim_end-contains_char :
      (s : String)
      → contains_char k (trim_end_matches is_whitespace s) ≡ false
      → contains_char k s ≡ false
  unfolding trim_end_matches
  trim_end-contains_char String.[] h = h
  trim_end-contains_char (String.◌∷◌ c s) h =
      kept c (trim_end_matches is_whitespace s) s (trim_end-contains_char s) h
    where
      kept :
          (c : Char) (t s : String)
          → (contains_char k t ≡ false → contains_char k s ≡ false)
          → contains_char k (keep is_whitespace c t) ≡ false
          → contains_char k (String.◌∷◌ c s) ≡ false
      kept c String.[] s ih g =
          unfold contains_char keep in ground (arith, clash is_whitespace k (code c), ih)
      kept c (String.◌∷◌ d t) s ih g = unfold contains_char keep in ground (arith, ih)

  trim_start-contains_char :
      (s : String) → contains_char k (trim_start s) ≡ false → contains_char k s ≡ false
  unfolding contains_char trim_start
  trim_start-contains_char String.[] h = h
  trim_start-contains_char (String.◌∷◌ c s) h =
      ground (arith, clash is_whitespace k (code c), trim_start-contains_char s)

  trim-contains_char :
      (p : ℕ → Bool) (s : String)
      → p k ≡ false
      → all_chars p (trim s) ≡ true
      → contains_char k s ≡ false
  unfolding trim
  trim-contains_char p s out h =
      trim_start-contains_char s
        (trim_end-contains_char (trim_start s) (all-contains_char p (trim s) out h))

slash_not_id : (is_whitespace b'/' ≡ false) × (is_id_char b'/' ≡ false)
unfolding is_whitespace is_id_char
slash_not_id = (refl, refl)

slash_not_tag : is_tag_char b'/' ≡ false
unfolding is_alphanumeric
slash_not_tag = refl

service_id-no_slash : (s : String) → IsServiceId s → contains_char b'/' s ≡ false
service_id-no_slash s v = trim-contains_char b'/' slash_not_id.0 is_id_char s slash_not_id.1 v.plain

type-no_slash : contains_char b'/' local_resource_type ≡ false
unfolding contains_char local_resource_type
type-no_slash = refl

split-cell :
    (s t : String) → contains_char b'/' t ≡ false → split b'/' (cell s t) ≡ split b'/' s ++ t ∷ []
split-cell s t h =
    let slash : String.◌++◌ "/" t ≡ String.◌∷◌ "/" t =
      cons-append "/" "" t ∙ ap (String.◌∷◌ "/") (nil-append t) in
    rw slash (split-append b'/' "/" s t refl ∙ ap (λ xs. split b'/' s ++ xs) (split_whole b'/' t h))

-- The cells of a logical path: the challenge repository, the local resources, and a tag that is not
-- empty, holds no separator and does not begin with a dot.
pub record IsLogical (logical_path tag : String) : Type 0 where
  pub cells :
      split b'/' logical_path ≡ challenge_resource_repository ∷ local_resource_type ∷ tag ∷ []
  pub filled : is_empty tag ≡ false
  pub plain : all_chars is_tag_char tag ≡ true
  pub shown : starts_with b'.' tag ≡ false

resource_tag-eq-ok :
    (path : String) (cells : List String) (tag : String)
    → split b'/' path ≡ cells
    → resource_tag cells ≡ ok tag
    → IsLogical path tag
unfolding resource_tag
resource_tag-eq-ok path (a ∷ b ∷ c ∷ []) tag e h =
    let repository = string_eq.beq_iff a challenge_resource_repository in
    let type = string_eq.beq_iff b local_resource_type in
    record {
      cells = e ∙ ground (arith, repository, type);
      filled = ground arith;
      plain = ground arith;
      shown = ground arith;
    }
resource_tag-eq-ok path _ tag e h = cc

-- The physical path has the service, the resource type and the tag as its cells.
physical_cells :
    (service_id logical_path path : String)
    → logical_to_physical_resource_path service_id logical_path ≡ ok path
    → (tag : String) × IsServiceId service_id
      × IsLogical logical_path tag
      × (split b'/' path ≡ service_id ∷ local_resource_type ∷ tag ∷ [])
unfolding logical_to_physical_resource_path
physical_cells service_id logical_path path h =
    let (accepted, h₁) = (seq-eq-ok_iff (validate_trustee_service_id service_id) _).0 h in
    let (tag, found, same) = bind-eq-ok (resource_tag (split b'/' logical_path)) _ h₁ in
    let v = (validate_trustee_service_id_iff service_id).0 accepted in
    let logical = resource_tag-eq-ok logical_path (split b'/' logical_path) tag refl found in
    (tag, v, logical, physical v logical (ok_injective same))
  where
    physical :
        {tag : String}
        → IsServiceId service_id
        → IsLogical logical_path tag
        → cell (cell service_id local_resource_type) tag ≡ path
        → split b'/' path ≡ service_id ∷ local_resource_type ∷ tag ∷ []
    physical {tag} v l same = rw (← same) (
        split-cell (cell service_id local_resource_type) tag
          (all-contains_char b'/' slash_not_id.0 is_tag_char tag slash_not_tag l.plain)
        ∙ ap (λ xs. xs ++ tag ∷ [])
            (split-cell service_id local_resource_type type-no_slash
              ∙ ap (λ xs. xs ++ local_resource_type ∷ [])
                  (split_whole b'/' service_id (service_id-no_slash service_id v))))

default_is_trimmed : trim challenge_resource_repository ≡ challenge_resource_repository
unfolding challenge_resource_repository trim trim_start trim_end_matches
default_is_trimmed = refl

-- Where two services map two logical paths to one physical path, the services are the same, and so
-- are the logical paths.
pub physical_path_injective :
    (service_id service_id' logical logical' path : String)
    → logical_to_physical_resource_path service_id logical ≡ ok path
    → logical_to_physical_resource_path service_id' logical' ≡ ok path
    → (service_id ≡ service_id') × (logical ≡ logical')
physical_path_injective service_id service_id' logical logical' path h h' =
    let (tag, v, l, cells) = physical_cells service_id logical path h in
    let (tag', v', l', cells') = physical_cells service_id' logical' path h' in
    let same : (service_id ≡ service_id') × (tag ≡ tag') = (cc, cc) in
    (
      same.0,
      split_injective "/" logical logical' (
          l.cells
          ∙ ap (λ t. challenge_resource_repository ∷ local_resource_type ∷ t ∷ []) same.1
          ∙ sym l'.cells),
    )

-- A logical path that maps to a physical one has three cells, the challenge repository, the
-- resource type and a tag; the physical path has the service, the resource type and the same tag,
-- and the service is not the challenge repository.
pub physical_path_repository :
    (service_id logical path : String)
    → logical_to_physical_resource_path service_id logical ≡ ok path
    → (tag : String) × (split b'/' path ≡ service_id ∷ local_resource_type ∷ tag ∷ [])
      × (split b'/' logical ≡ challenge_resource_repository ∷ local_resource_type ∷ tag ∷ [])
      × (service_id ≢ challenge_resource_repository)
physical_path_repository service_id logical path h =
    let (tag, v, l, cells) = physical_cells service_id logical path h in
    (tag, cells, l.cells, λ e. v.free (ap trim e ∙ default_is_trimmed))
