-- ===== src/Pep/Policy/Denied.antt =====
-- Which commands the policy denies: those in whose text a pattern occurs.
use Prim.Native.Char.{code}
use Prim.Native.String.{String, [], ◌∷◌, ◌++◌}
use text.Mathlib.TextEquality.{Char-path}
use text.Mathlib.TextLemmas.{nil-append, cons-append}
use confidential_agent.Common.{
  true, false, Option, none, some, List, ◌≡◌, ◌↔◌, inl, inr, refl, sym, ap, ◌∙◌, arith, All,
  Bool-cases, Option-cases, subst, nat_eqb, nat_eqb_iff, ap₂,
}
use confidential_agent.Common.Text.{strip_prefix, contains_text, to_ascii_lowercase, is_some}
use confidential_agent.Pep.{success, PepConfig}
use confidential_agent.Pep.Policy.{find_denied, ensure_command_policy}

-- The text has the pattern somewhere in it.
abbrev pub Occurs : String → String → Type 0
Occurs p s = (a : String) × (b : String) × (s ≡ a ++ (p ++ b))

some_injective : {s b : String} → ◌≡◌ {A = Option String} (some s) (some b) → s ≡ b
some_injective h = cc

strip_prefix-eq-some : (p s b : String) → strip_prefix p s ≡ some b → s ≡ p ++ b
unfolding strip_prefix
strip_prefix-eq-some [] s b h = some_injective h ∙ sym (nil-append b)
strip_prefix-eq-some (c ∷ p) [] b h = absurd (cc)
strip_prefix-eq-some (c ∷ p) (d ∷ s) b h = elim (Bool-cases (nat_eqb (code c) (code d))) [
  | inl same ↦
      let rest : strip_prefix p s ≡ some b = rw same at h in
      let d≡c : d ≡ c = Char-path d c (sym ((nat_eqb_iff (code c) (code d)).0 same)) in
      ap₂ ◌∷◌ d≡c (strip_prefix-eq-some p s b rest) ∙ sym (cons-append c p b)
  | inr differs ↦ absurd (let n : ◌≡◌ {A = Option String} none (some b) = rw differs at h in cc)
]

strip_prefix-append : (p b : String) → strip_prefix p (p ++ b) ≡ some b
unfolding strip_prefix
strip_prefix-append [] b = ap some (nil-append b)
strip_prefix-append (c ∷ p) b =
    rw (cons-append c p b) (rw ((nat_eqb_iff (code c) (code c)).1 refl) (strip_prefix-append p b))

is_some-cases : (o : Option String) → is_some o ≡ true → (b : String) × (o ≡ some b)
is_some-cases none h = absurd (cc)
is_some-cases (some b) h = (b, refl)

-- A match at the front of the text.
front_iff : (p s : String) → (is_some (strip_prefix p s) ≡ true) ↔ ((b : String) × (s ≡ p ++ b))
front_iff p s = (
  λ h. let (b, e) = is_some-cases (strip_prefix p s) h in (b, strip_prefix-eq-some p s b e),
  λ (b, e). rw e (rw (strip_prefix-append p b) refl),
)

contains_text_of_front :
    (p s : String) → is_some (strip_prefix p s) ≡ true → contains_text p s ≡ true
unfolding contains_text
contains_text_of_front p [] h = h
contains_text_of_front p (c ∷ s) h = rw h refl

contains_text-append : (a p b : String) → contains_text p (a ++ (p ++ b)) ≡ true
unfolding contains_text
contains_text-append [] p b =
    rw (nil-append (p ++ b)) (contains_text_of_front p (p ++ b) (rw (strip_prefix-append p b) refl))
contains_text-append (c ∷ a) p b =
    rw (cons-append c a (p ++ b)) (ground (arith, contains_text-append a p b))

pub contains_text_iff : (p s : String) → (contains_text p s ≡ true) ↔ Occurs p s
unfolding contains_text
contains_text_iff p [] = (
  λ h. let (b, e) = (front_iff p []).0 h in ([], b, e ∙ sym (nil-append (p ++ b))),
  λ (a, b, e). subst (λ t. contains_text p t ≡ true) (sym e) (contains_text-append a p b),
)
contains_text_iff p (c ∷ s) = (
  λ h. elim (Bool-cases (is_some (strip_prefix p (c ∷ s)))) [
    | inl here ↦ let (b, e) = (front_iff p (c ∷ s)).0 here in ([], b, e ∙ sym (nil-append (p ++ b)))
    | inr later ↦
        let (a, b, e) = (contains_text_iff p s).0 (rw later at h) in
        (c ∷ a, b, ap (λ t. c ∷ t) e ∙ sym (cons-append c a (p ++ b)))
  ],
  λ (a, b, e). subst (λ t. contains_text p t ≡ true) (sym e) (contains_text-append a p b),
)

find_denied-eq-none_iff :
    (lowered : String) (patterns : List String)
    → (find_denied lowered patterns ≡ none)
      ↔ All (λ (p : String). ¬ Occurs (to_ascii_lowercase p) lowered) patterns
unfolding find_denied
find_denied-eq-none_iff lowered List.[] = (λ h. tt, λ h. refl)
find_denied-eq-none_iff lowered (List.◌∷◌ p patterns) =
    let (to, from) = contains_text_iff (to_ascii_lowercase p) lowered in
    let (more, less) = find_denied-eq-none_iff lowered patterns in
    elim (Bool-cases (contains_text (to_ascii_lowercase p) lowered)) [
      | inl found ↦
          (λ h. absurd (let e : some p ≡ none = rw found at h in cc), λ h. absurd (h.0 (to found)))
      | inr missing ↦ rw missing (
        λ h. (λ o. absurd (let e : false ≡ true = sym missing ∙ from o in cc), more h),
        λ h. less h.1,
      )
    ]

-- A command passes the command policy exactly if no denied pattern and no denied path prefix of the
-- configuration occurs anywhere in it, both compared in lower case.
pub ensure_command_policy_iff :
    (command : String) (config : PepConfig) (audit_id : String)
    → (ensure_command_policy command config audit_id ≡ success tt) ↔ (
        All
          (λ (p : String). ¬ Occurs (to_ascii_lowercase p) (to_ascii_lowercase command))
          config.denied_command_patterns
        × All
            (λ (p : String). ¬ Occurs (to_ascii_lowercase p) (to_ascii_lowercase command))
            config.denied_path_prefixes)
unfolding ensure_command_policy
ensure_command_policy_iff command config audit_id =
    let lowered = to_ascii_lowercase command in
    let (to, from) = find_denied-eq-none_iff lowered config.denied_command_patterns in
    let (to', from') = find_denied-eq-none_iff lowered config.denied_path_prefixes in
    elim (Option-cases (find_denied lowered config.denied_command_patterns)) [
      | inl e ↦ elim (Option-cases (find_denied lowered config.denied_path_prefixes)) [
        | inl e' ↦ rw e (rw e' (λ h. (to e, to' e'), λ h. refl))
        | inr (p, e') ↦ rw e (rw e' (λ h. cc, λ h. absurd (cc (e', from' h.1))))
      ]
      | inr (p, e) ↦ rw e (λ h. cc, λ h. absurd (cc (e, from h.0)))
    ]
