-- ===== src/Pep/Attestation/Options.antt =====
-- The command line of the attestation helper, as the options that it is made of.
use confidential_agent.Common.{
  String, true, List, [], ◌∷◌, ◌≡◌, ◌↔◌, ◌⊎◌, inl, inr, refl, sym, ap, ap₂, ◌∙◌, subst, ◌==◌,
  string_eq, Bool-cases,
}
use confidential_agent.Pep.{Outcome, success, AttestationRequest}
use confidential_agent.Pep.Attestation.{
  unknown, parse_flags, default_request, attest_flag, parse_attestation_args,
}

pub data AttestOption : Type 0 where
  aa_url tee policy : String → AttestOption
  claims : AttestOption

unfoldable pub words : List AttestOption → List String
words [] = []
words (aa_url value ∷ options) = "--aa-url" ∷ value ∷ words options
words (tee value ∷ options) = "--tee" ∷ value ∷ words options
words (policy value ∷ options) = "--policy" ∷ value ∷ words options
words (claims ∷ options) = "--claims" ∷ words options

-- The request after some options, where a later one replaces an earlier one.
unfoldable pub requested : AttestationRequest → List AttestOption → AttestationRequest
requested request [] = request
requested request (aa_url value ∷ options) = requested (record request { aa_url = value }) options
requested request (tee value ∷ options) = requested (record request { tee = value }) options
requested request (policy value ∷ options) = requested (record request { policy = value }) options
requested request (claims ∷ options) = requested (record request { claims = true }) options

abbrev label : String
label = "unknown attest argument: "

parse_flags-claims :
    (request : AttestationRequest) (args : List String)
    → parse_flags attest_flag label request ("--claims" ∷ args)
      ≡ parse_flags attest_flag label (record request { claims = true }) args
unfolding parse_flags attest_flag
parse_flags-claims request [] = refl
parse_flags-claims request (value ∷ args) = refl

parse_flags-words :
    (request : AttestationRequest) (options : List AttestOption)
    → parse_flags attest_flag label request (words options) ≡ success (requested request options)
unfolding parse_flags attest_flag words requested
parse_flags-words request [] = refl
parse_flags-words request (aa_url value ∷ options) =
    parse_flags-words (record request { aa_url = value }) options
parse_flags-words request (tee value ∷ options) =
    parse_flags-words (record request { tee = value }) options
parse_flags-words request (policy value ∷ options) =
    parse_flags-words (record request { policy = value }) options
parse_flags-words request (claims ∷ options) =
    parse_flags-claims request (words options)
    ∙ parse_flags-words (record request { claims = true }) options

attest_flag-cases :
    (flag : String)
    → (flag ≡ "--aa-url")
      ⊎ ((flag ≡ "--tee")
          ⊎ ((flag ≡ "--policy") ⊎ ((flag ≡ "--claims") ⊎ (attest_flag flag ≡ unknown))))
unfolding attest_flag
attest_flag-cases flag = elim (Bool-cases (flag == "--aa-url")) [
  | inl e ↦ inl ((string_eq.beq_iff flag "--aa-url").0 e)
  | inr e ↦ inr (elim (Bool-cases (flag == "--tee")) [
    | inl f ↦ inl ((string_eq.beq_iff flag "--tee").0 f)
    | inr f ↦ inr (elim (Bool-cases (flag == "--policy")) [
      | inl g ↦ inl ((string_eq.beq_iff flag "--policy").0 g)
      | inr g ↦ inr (elim (Bool-cases (flag == "--claims")) [
        | inl h ↦ inl ((string_eq.beq_iff flag "--claims").0 h)
        | inr h ↦ inr (rw e (rw f (rw g (rw h refl))))
      ])
    ])
  ])
]

-- The arguments are the words of some options, which give the request.
abbrev Reads : AttestationRequest → List String → AttestationRequest → Type 0
Reads request args result =
    (options : List AttestOption) × (args ≡ words options) × (result ≡ requested request options)

success_injective :
    {r s : AttestationRequest}
    → ◌≡◌ {A = Outcome String AttestationRequest} (success r) (success s)
    → r ≡ s
success_injective h = cc

parse_flags-Reads :
    (request result : AttestationRequest) (args : List String)
    → parse_flags attest_flag label request args ≡ success result
    → Reads request args result
unfolding parse_flags attest_flag words requested
parse_flags-Reads request result [] h = ([], refl, sym (success_injective h))
parse_flags-Reads request result (flag ∷ []) h = elim (attest_flag-cases flag) [
  | inl e ↦ absurd (cc (rw (e, parse_flags) at h))
  | inr (inl e) ↦ absurd (cc (rw (e, parse_flags) at h))
  | inr (inr (inl e)) ↦ absurd (cc (rw (e, parse_flags) at h))
  | inr (inr (inr (inl e))) ↦ (
    claims ∷ [],
    ap (λ (w : String). w ∷ []) e,
    sym (success_injective (rw (e, parse_flags) at h)),
  )
  | inr (inr (inr (inr e))) ↦ absurd (cc (rw (e, parse_flags) at h))
]
parse_flags-Reads request result (flag ∷ value ∷ args) h = elim (attest_flag-cases flag) [
  | inl e ↦
      let (options, f, g) =
        parse_flags-Reads (record request { aa_url = value }) result args
          (rw (e, parse_flags) at h) in
      (aa_url value ∷ options, ap₂ (λ (w : String) (ws : List String). w ∷ value ∷ ws) e f, g)
  | inr (inl e) ↦
      let (options, f, g) =
        parse_flags-Reads (record request { tee = value }) result args (rw (e, parse_flags) at h) in
      (tee value ∷ options, ap₂ (λ (w : String) (ws : List String). w ∷ value ∷ ws) e f, g)
  | inr (inr (inl e)) ↦
      let (options, f, g) =
        parse_flags-Reads (record request { policy = value }) result args
          (rw (e, parse_flags) at h) in
      (policy value ∷ options, ap₂ (λ (w : String) (ws : List String). w ∷ value ∷ ws) e f, g)
  | inr (inr (inr (inl e))) ↦
      let (options, f, g) =
        parse_flags-Reads (record request { claims = true }) result (value ∷ args)
          (rw (e, parse_flags) at h) in
      (claims ∷ options, ap₂ (λ (w : String) (ws : List String). w ∷ ws) e f, g)
  | inr (inr (inr (inr e))) ↦ absurd (cc (rw (e, parse_flags) at h))
]

head : {a b : String} {xs ys : List String} → a ∷ xs ≡ b ∷ ys → a ≡ b
head h = cc

tail : {a b : String} {xs ys : List String} → a ∷ xs ≡ b ∷ ys → xs ≡ ys
tail h = cc

-- The helper's arguments are read exactly if they are "collect-and-verify" and then a sequence of
-- options, each with its value, and the request is what these options make of the default one, a later
-- option replacing an earlier one.
pub parse_attestation_args_iff :
    (args : List String) (request : AttestationRequest)
    → (parse_attestation_args args ≡ success request) ↔ (
        (options : List AttestOption) × (args ≡ "collect-and-verify" ∷ words options)
        × (request ≡ requested default_request options))
unfolding parse_attestation_args
parse_attestation_args_iff [] request = (λ h. cc, λ (options, e, f). cc)
parse_attestation_args_iff (subcommand ∷ args) request =
    elim (Bool-cases (subcommand == "collect-and-verify")) [
      | inl e ↦ rw e (
        λ h.
            let (options, f, g) = parse_flags-Reads default_request request args h in
            (options, ap₂ ◌∷◌ ((string_eq.beq_iff subcommand "collect-and-verify").0 e) f, g),
        λ (options, f, g).
            subst
              (λ (ws : List String).
                parse_flags attest_flag label default_request ws ≡ success request)
              (sym (tail f)) (parse_flags-words default_request options ∙ ap success (sym g)),
      )
      | inr e ↦ rw e (
        λ h. cc,
        λ (options, f, g).
            absurd (cc (e, (string_eq.beq_iff subcommand "collect-and-verify").1 (head f))),
      )
    ]
