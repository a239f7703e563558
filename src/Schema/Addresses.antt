-- ===== src/Schema/Addresses.antt =====
-- The address of a deployment that is reached for an injection.
use confidential_agent.Common.{
  String, true, Option, none, some, ◌≡◌, ◌⊎◌, ◌↔◌, inl, inr, refl, Bool-cases,
}
use confidential_agent.Common.Text
use confidential_agent.Common.Text.{trim}
use confidential_agent.Schema.{LocalDeployState, first, filled, or_else, preferred_injection_ip}

-- A blank address counts as none.
abbrev pub IsBlank : String → Type 0
IsBlank s = Text.is_empty (trim s) ≡ true

-- The address that stands for the instances: the first public one, and the first private one only where
-- no public one is listed.
abbrev pub Listed : LocalDeployState → String → Type 0
Listed d ip =
    (first d.instance_public_ips ≡ some ip)
    ⊎ ((first d.instance_public_ips ≡ none) × (first d.instance_private_ips ≡ some ip))

-- The three ways in which an address is chosen, in the order in which they are tried.
pub data Chosen (d : LocalDeployState) (ip : String) : Type 0 where
  of_instance : Listed d ip → ¬ IsBlank ip → Chosen d ip
  of_public :
      ((s : String) → Listed d s → IsBlank s) → d.public_ip ≡ some ip → ¬ IsBlank ip → Chosen d ip
  of_private :
      ((s : String) → Listed d s → IsBlank s)
      → ((s : String) → d.public_ip ≡ some s → IsBlank s)
      → d.private_ip ≡ some ip
      → ¬ IsBlank ip
      → Chosen d ip

some_cancel : (t s : String) → some t ≡ some s → t ≡ s
some_cancel t s h = cc

filled_iff : (o : Option String) (s : String) → (filled o ≡ some s) ↔ ((o ≡ some s) × ¬ IsBlank s)
unfolding filled
filled_iff none s = (λ h. cc, λ (e, n). cc)
filled_iff (some t) s = elim (Bool-cases (Text.is_empty (trim t))) [
  | inl e ↦ rw e (λ h. cc, λ (same, n). absurd (n (rw (← some_cancel t s same) e)))
  | inr e ↦
      rw e (λ same. (same, λ b. let c = rw (← some_cancel t s same) at b in cc), λ (same, n). same)
]

filled-none_iff : (o : Option String) → (filled o ≡ none) ↔ ((s : String) → o ≡ some s → IsBlank s)
unfolding filled
filled-none_iff none = (λ h s e. cc, λ h. refl)
filled-none_iff (some t) = elim (Bool-cases (Text.is_empty (trim t))) [
  | inl e ↦ rw e (λ h s same. rw (← some_cancel t s same) e, λ h. refl)
  | inr e ↦ rw e (λ h. cc, λ h. let b = h t refl in cc)
]

or_else_iff :
    (a b : Option String) (s : String)
    → (or_else a b ≡ some s) ↔ ((a ≡ some s) ⊎ ((a ≡ none) × (b ≡ some s)))
or_else_iff none b s = (λ h. inr (refl, h), λ h. elim h [ inl e ↦ cc | inr (n, e) ↦ e ])
or_else_iff (some t) b s = (λ h. inl h, λ h. elim h [ inl e ↦ e | inr (n, e) ↦ cc ])

abbrev several : LocalDeployState → Option String
several d = or_else (first d.instance_public_ips) (first d.instance_private_ips)

several-none_iff :
    (d : LocalDeployState) → (filled (several d) ≡ none) ↔ ((s : String) → Listed d s → IsBlank s)
several-none_iff d =
    let (to, from) = filled-none_iff (several d) in
    let listed = or_else_iff (first d.instance_public_ips) (first d.instance_private_ips) in
    (λ h s l. to h s ((listed s).1 l), λ h. from (λ s e. h s ((listed s).0 e)))

single-Chosen :
    (d : LocalDeployState) (ip : String)
    → filled (several d) ≡ none
    → (or_else (filled d.public_ip) (filled d.private_ip) ≡ some ip)
    → Chosen d ip
single-Chosen d ip none_listed h =
    let blanks = (several-none_iff d).0 none_listed in
    elim ((or_else_iff (filled d.public_ip) (filled d.private_ip) ip).0 h) [
      | inl e ↦ let (there, plain) = (filled_iff d.public_ip ip).0 e in of_public blanks there plain
      | inr (missed, e) ↦
          let (there, plain) = (filled_iff d.private_ip ip).0 e in
          of_private blanks ((filled-none_iff d.public_ip).0 missed) there plain
    ]

Chosen-eq-some :
    (d : LocalDeployState) (ip : String) → Chosen d ip → preferred_injection_ip d ≡ some ip
unfolding preferred_injection_ip
Chosen-eq-some d ip (of_instance l plain) =
    let listed = or_else_iff (first d.instance_public_ips) (first d.instance_private_ips) ip in
    rw ((filled_iff (several d) ip).1 (listed.1 l, plain)) refl
Chosen-eq-some d ip (of_public blanks there plain) =
    rw ((several-none_iff d).1 blanks) (rw ((filled_iff d.public_ip ip).1 (there, plain)) refl)
Chosen-eq-some d ip (of_private blanks missed there plain) =
    rw ((several-none_iff d).1 blanks)
      (rw ((filled-none_iff d.public_ip).1 missed) ((filled_iff d.private_ip ip).1 (there, plain)))

-- The address for an injection is the first of the instances' public addresses, of their private ones
-- where no public one is listed, if it is not blank; else the public address if it is there and not
-- blank; else the private address if it is there and not blank; and there is none otherwise.
pub preferred_injection_ip_iff :
    (d : LocalDeployState) (ip : String) → (preferred_injection_ip d ≡ some ip) ↔ Chosen d ip
unfolding preferred_injection_ip
preferred_injection_ip_iff d ip = (
  λ h.
      elim ((or_else_iff (filled (several d)) (or_else (filled d.public_ip) (filled d.private_ip))
          ip).0
        h) [
          | inl e ↦
              let (there, plain) = (filled_iff (several d) ip).0 e in
              of_instance
                ((or_else_iff (first d.instance_public_ips) (first d.instance_private_ips) ip).0
                  there)
                plain
          | inr (missed, e) ↦ single-Chosen d ip missed e
        ],
  Chosen-eq-some d ip,
)
