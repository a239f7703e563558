-- ===== src/Spec/Paths/Components.antt =====
-- The components of a path that was built from plain parts.
use Prim.Native.String
use mathlib.Core.Path.{◌≡⟨◌⟩◌, ◌∎}
use text.Mathlib.TextLemmas.{nil-append, cons-append}
use confidential_agent.Common.{
  ap₂, String, Bool, true, false, List, [], ◌∷◌, ◌++◌, All, ◌≡◌, ◌≢◌, refl, ap, ◌∙◌, arith, ◌==◌,
  string_eq, if◌then◌else◌, inl, inr, Bool-cases,
}
use confidential_agent.Common.Text
use confidential_agent.Common.Text.{split, starts_with, contains_char}
use confidential_agent.Common.Text.Laws.{
  split-append, split_whole, split-contains_char, starts_with-append, is_empty-append,
  starts_with_of_contains_char, is_empty_of_ne,
}
use confidential_agent.Spec.Paths.{
  PathBuf, Component, root_dir, normal, is_absolute, tail_components, head_components, components,
  render_parts,
}

-- A file name: not empty, not "." or "..", and with no separator.
pub record IsPart (s : String) : Type 0 where
  pub filled : s ≢ ""
  pub not_here : s ≢ "."
  pub not_up : s ≢ ".."
  pub plain : contains_char b'/' s ≡ false

abbrev pub IsNamed : Component → Type 0
IsNamed (normal s) = IsPart s
IsNamed _ = Unit

tail_components-IsNamed :
    (parts : List String)
    → All (λ s. contains_char b'/' s ≡ false) parts
    → All IsNamed (tail_components parts)
unfolding tail_components
tail_components-IsNamed [] h = tt
tail_components-IsNamed (s ∷ parts) (plain, h) =
    let ih = tail_components-IsNamed parts h in
    elim (Bool-cases (s == "")) [
      | inl e ↦ rw e ih
      | inr filled ↦ elim (Bool-cases (s == ".")) [
        | inl e ↦ rw filled (rw e ih)
        | inr here ↦ elim (Bool-cases (s == "..")) [
          | inl e ↦ rw filled (rw here (rw e (tt, ih)))
          | inr up ↦ rw filled (
              rw here (
                rw up (
                  record {
                    filled = λ e. ground (arith, string_eq.beq_iff s "");
                    not_here = λ e. ground (arith, string_eq.beq_iff s ".");
                    not_up = λ e. ground (arith, string_eq.beq_iff s "..");
                    plain = plain;
                  },
                  ih,
                )))
        ]
      ]
    ]

head_components-IsNamed :
    (parts : List String)
    → All (λ s. contains_char b'/' s ≡ false) parts
    → All IsNamed (head_components parts)
unfolding head_components
head_components-IsNamed [] h = tt
head_components-IsNamed (s ∷ parts) h = elim (Bool-cases (s == ".")) [
  | inl e ↦ rw e (tt, tail_components-IsNamed parts h.1)
  | inr e ↦ rw e (tail_components-IsNamed (s ∷ parts) h)
]

-- Every name among the components of a path is a file name.
pub components-IsNamed : (p : PathBuf) → All IsNamed (components p)
unfolding components
components-IsNamed p = elim (Bool-cases (is_absolute p)) [
  | inl e ↦ rw e (tt, tail_components-IsNamed _ (split-contains_char b'/' p))
  | inr e ↦ rw e (head_components-IsNamed _ (split-contains_char b'/' p))
]

tail_components-append :
    (xs ys : List String) → tail_components (xs ++ ys) ≡ tail_components xs ++ tail_components ys
unfolding tail_components
tail_components-append [] ys = refl
tail_components-append (x ∷ xs) ys = ground (arith, tail_components-append xs ys)

tail_components_one : (s : String) → IsPart s → tail_components (s ∷ []) ≡ normal s ∷ []
unfolding tail_components
tail_components_one s h =
    ground (arith, string_eq.beq_iff s "", string_eq.beq_iff s ".", string_eq.beq_iff s "..")

-- The names in the order of the path, from the parts that were built, last first.
abbrev pub names : List String → List Component
names [] = []
names (s ∷ parts) = names parts ++ normal s ∷ []

slash : Text.is_empty "/" ≡ false
unfolding Text.is_empty
slash = refl

slash_first : starts_with b'/' "/" ≡ true
unfolding starts_with
slash_first = refl

render-filled :
    (rooted : Bool) (s : String) (parts : List String)
    → All IsPart (s ∷ parts)
    → Text.is_empty (render_parts rooted (s ∷ parts)) ≡ false
unfolding render_parts
render-filled true s [] h = is_empty-append "/" s slash
render-filled false s [] h = is_empty_of_ne s h.0.filled
render-filled rooted s (t ∷ parts) h = is_empty-append _ _ (render-filled rooted t parts h.1)

nothing : contains_char b'/' "" ≡ false
unfolding contains_char
nothing = refl

no_components : (tail_components (split b'/' "/") ≡ []) × (tail_components (split b'/' "") ≡ [])
unfolding split tail_components
no_components = (refl, refl)

blank_first : (parts : List String) → tail_components ("" ∷ parts) ≡ tail_components parts
unfolding tail_components
blank_first parts = refl

-- What was built under a root is absolute, and what was not is relative.
pub render-is_absolute :
    (rooted : Bool) (parts : List String)
    → All IsPart parts
    → is_absolute (render_parts rooted parts) ≡ rooted
unfolding render_parts is_absolute
render-is_absolute true [] h = slash_first
render-is_absolute false [] h = starts_with_of_contains_char b'/' "" nothing
render-is_absolute true (s ∷ []) h = starts_with-append b'/' "/" s slash ∙ slash_first
render-is_absolute false (s ∷ []) h = starts_with_of_contains_char b'/' s h.0.plain
render-is_absolute rooted (s ∷ t ∷ parts) h =
    starts_with-append b'/' _ _ (render-filled rooted t parts h.1)
    ∙ render-is_absolute rooted (t ∷ parts) h.1

slash_cons : (s : String) → String.◌++◌ "/" s ≡ String.◌∷◌ "/" s
slash_cons s = cons-append "/" "" s ∙ ap (String.◌∷◌ "/") (nil-append s)

split_slash :
    (a s : String) → split b'/' (String.◌++◌ a (String.◌++◌ "/" s)) ≡ split b'/' a ++ split b'/' s
split_slash a s = rw (slash_cons s) (split-append b'/' "/" a s refl)

split_slash_first : (s : String) → split b'/' (String.◌++◌ "/" s) ≡ "" ∷ split b'/' s
unfolding split
split_slash_first s = rw (slash_cons s)

-- The components below the root, if there is one.
tail_components-render :
    (rooted : Bool) (parts : List String)
    → All IsPart parts
    → tail_components (split b'/' (render_parts rooted parts)) ≡ names parts
unfolding render_parts
tail_components-render true [] h = no_components.0
tail_components-render false [] h = no_components.1
tail_components-render true (s ∷ []) h =
    rw (split_slash_first s, split_whole b'/' s h.0.plain)
      (blank_first (s ∷ []) ∙ tail_components_one s h.0)
tail_components-render false (s ∷ []) h =
    rw (split_whole b'/' s h.0.plain) (tail_components_one s h.0)
tail_components-render rooted (s ∷ t ∷ parts) h =
    let above = render_parts rooted (t ∷ parts) in
    tail_components (split b'/' (String.◌++◌ above (String.◌++◌ "/" s)))
    ≡⟨ ap tail_components (split_slash above s) ⟩ tail_components (split b'/' above ++ split b'/' s)
    ≡⟨ tail_components-append (split b'/' above) (split b'/' s) ⟩
      tail_components (split b'/' above) ++ tail_components (split b'/' s)
    ≡⟨ ap₂ ◌++◌ (tail_components-render rooted (t ∷ parts) h.1)
        (ap tail_components (split_whole b'/' s h.0.plain) ∙ tail_components_one s h.0) ⟩
      names (t ∷ parts) ++ normal s ∷ [] ∎

-- The first part of what was built without a root is not ".".
first-render :
    (parts : List String)
    → All IsPart parts
    → (h : String) × (t : List String) × (split b'/' (render_parts false parts) ≡ h ∷ t) × (h ≢ ".")
unfolding render_parts
first-render [] h = ("", [], split_whole b'/' "" nothing, blank_not_here)
  where
    blank_not_here : ◌≢◌ {A = String} "" "."
    blank_not_here e = ground (arith, string_eq.beq_iff "" ".")
first-render (s ∷ []) h = (s, [], split_whole b'/' s h.0.plain, h.0.not_here)
first-render (s ∷ t ∷ parts) h =
    let (first, rest, parted, other) = first-render (t ∷ parts) h.1 in
    (
      first,
      rest ++ split b'/' s,
      split_slash (render_parts false (t ∷ parts)) s ∙ ap (λ xs. xs ++ split b'/' s) parted,
      other,
    )

head_components_other :
    (h : String) (t : List String) → h ≢ "." → head_components (h ∷ t) ≡ tail_components (h ∷ t)
unfolding head_components
head_components_other h t other = ground (arith, string_eq.beq_iff h ".")

head_components-render :
    (parts : List String)
    → All IsPart parts
    → head_components (split b'/' (render_parts false parts))
      ≡ tail_components (split b'/' (render_parts false parts))
head_components-render parts h =
    let (first, rest, parted, other) = first-render parts h in
    rw parted (head_components_other first rest other)

-- Reading the built path gives back the root and the names.
pub components-render :
    (rooted : Bool) (parts : List String)
    → All IsPart parts
    → components (render_parts rooted parts)
      ≡ (if rooted then root_dir ∷ names parts else names parts)
unfolding components
components-render true parts h =
    rw (render-is_absolute true parts h)
      (ap (λ cs. root_dir ∷ cs) (tail_components-render true parts h))
components-render false parts h =
    rw (render-is_absolute false parts h)
      (head_components-render parts h ∙ tail_components-render false parts h)
