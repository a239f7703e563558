-- ===== src/Peerings/Validity.antt =====
-- What a valid file of peerings is, and what `validate` accepts.
use confidential_agent.Common.{
  ℕ, suc, String, true, false, List, [], ◌∷◌, map, All, Distinct, is_empty, ◌==◌, nat_eq,
  nat_eqb_iff, string_eq, ◌↔◌, ◌≡◌, refl, arith, distinct_from, distinct_from-nil_iff, is_id_char,
  Field, Problem, ok, bail_if, ensure, seq-eq-ok_iff, bail_if-eq-ok_iff, ensure-eq-ok_iff,
  if◌then◌else◌,
}
use confidential_agent.Common.Text
use confidential_agent.Common.Text.{trim}
use confidential_agent.Net.{Ipv4Addr}
use confidential_agent.Net.Blocks.{IsBlock, validate_ipv4_cidr_iff}
use confidential_agent.Peerings.{
  PeeringScope, scope_eq, PeeringEntry, PeeringsFile, validate_label, validate_scopes,
  validate_entries, validate, entry_field,
}

-- Around the white space at its ends, a label is not empty and holds letters, digits, '_' and '-'.
pub record IsLabel (value : String) : Type 0 where
  pub filled : Text.is_empty (trim value) ≡ false
  pub plain : Text.all_chars is_id_char (trim value) ≡ true

validate_label_iff :
    (field : Field) (value : String) → (validate_label field value ≡ ok tt) ↔ IsLabel value
unfolding validate_label
validate_label_iff field value = ground (
  arith,
  seq-eq-ok_iff (bail_if (Text.is_empty (trim value)) field Problem.empty)
      (ensure (Text.all_chars is_id_char (trim value)) field Problem.charset),
  bail_if-eq-ok_iff (Text.is_empty (trim value)) field Problem.empty,
  ensure-eq-ok_iff (Text.all_chars is_id_char (trim value)) field Problem.charset,
)

pub record IsEntry (e : PeeringEntry) : Type 0 where
  pub label : IsLabel e.label
  pub block : (network : Ipv4Addr) × (prefix : ℕ) × IsBlock e.cidr network prefix
  pub scope : Distinct e.scope

-- The version is 1, no label is used twice, and each entry is well formed.
pub record IsValid (file : PeeringsFile) : Type 0 where
  pub version : file.version ≡ 1
  pub labels : Distinct (map (λ (e : PeeringEntry). e.label) file.peerings)
  pub entries : All IsEntry file.peerings

validate_scopes_iff :
    (idx : ℕ) (seen scopes : List PeeringScope)
    → (validate_scopes idx seen scopes ≡ ok tt) ↔ (distinct_from seen scopes ≡ true)
unfolding validate_scopes distinct_from
validate_scopes_iff idx seen [] = ground arith
validate_scopes_iff idx seen (scope ∷ rest) =
    ground (arith, validate_scopes_iff idx (scope ∷ seen) rest)

-- The code passes over an empty list of scopes, which repeats nothing.
checked_scopes_iff :
    (idx : ℕ) (scopes : List PeeringScope)
    → ((if is_empty scopes then ok tt else validate_scopes idx [] scopes) ≡ ok tt) ↔ Distinct scopes
checked_scopes_iff idx [] = (λ h. tt, λ h. refl)
checked_scopes_iff idx (s ∷ scopes) =
    ground (arith, validate_scopes_iff idx [] (s ∷ scopes), distinct_from-nil_iff (s ∷ scopes))

validate_entries_iff :
    (idx : ℕ) (seen : List String) (es : List PeeringEntry)
    → (validate_entries idx seen es ≡ ok tt)
      ↔ (All IsEntry es × (distinct_from seen (map (λ (e : PeeringEntry). e.label) es) ≡ true))
unfolding validate_entries distinct_from
validate_entries_iff idx seen [] = ground arith
validate_entries_iff idx seen (e ∷ es) = ground (
  arith,
  validate_label_iff (entry_field idx "label") e.label,
  validate_ipv4_cidr_iff (entry_field idx "cidr") e.cidr,
  checked_scopes_iff idx e.scope,
  validate_entries_iff (suc idx) (e.label ∷ seen) es,
)

-- `validate` accepts a file exactly if it is valid: version 1, labels that differ, and entries with
-- a plain label, an IPv4 block and scopes that differ.
pub validate_peerings_iff : (file : PeeringsFile) → (validate file ≡ ok tt) ↔ IsValid file
unfolding validate
validate_peerings_iff file = ground (
  arith,
  ensure-eq-ok_iff (file.version == 1) (Field.name "version") Problem.version,
  nat_eqb_iff file.version 1,
  validate_entries_iff 0 [] file.peerings,
  distinct_from-nil_iff (map (λ (e : PeeringEntry). e.label) file.peerings),
)
