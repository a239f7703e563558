-- ===== src/Spec/Paths/Normal.antt =====
-- Normalising a path: the components that are left, and a path that is resolved against an absolute
-- folder.
pub mod Cancelling
use Prim.Native.String
use confidential_agent.Common.{
  String, Bool, true, false, List, [], ◌∷◌, ◌++◌, All, ◌≡◌, ◌≢◌, refl, ap, ◌∙◌, arith, string_eq,
  if◌then◌else◌, inl, inr, Bool-cases,
}
use confidential_agent.Common.Text
use confidential_agent.Common.Text.{starts_with, split}
use confidential_agent.Common.Text.Laws.{starts_with-append}
use confidential_agent.Spec.Paths.{
  PathBuf, Component, root_dir, cur_dir, parent_dir, normal, Built, is_absolute, tail_components,
  head_components, components, normalize_step, normalize_from, render_parts, normalize_path, join,
  resolve_pathbuf, drop_first,
}
use confidential_agent.Spec.Paths.Components.{
  IsPart, IsNamed, components-IsNamed, names, components-render, render-is_absolute,
}

drop_first-IsPart : (parts : List String) → All IsPart parts → All IsPart (drop_first parts)
drop_first-IsPart [] h = tt
drop_first-IsPart (s ∷ parts) h = h.1

step-IsPart :
    (b : Built) (c : Component)
    → All IsPart b.parts
    → IsNamed c
    → All IsPart (normalize_step b c).parts
unfolding normalize_step
step-IsPart b root_dir h k = tt
step-IsPart b cur_dir h k = h
step-IsPart b parent_dir h k = drop_first-IsPart b.parts h
step-IsPart b (normal s) h k = (k, h)

from-IsPart :
    (b : Built) (cs : List Component)
    → All IsPart b.parts
    → All IsNamed cs
    → All IsPart (normalize_from b cs).parts
unfolding normalize_from
from-IsPart b [] h k = h
from-IsPart b (c ∷ cs) h (k, ks) = from-IsPart (normalize_step b c) cs (step-IsPart b c h k) ks

normalize_from-append :
    (b : Built) (cs ds : List Component)
    → normalize_from b (cs ++ ds) ≡ normalize_from (normalize_from b cs) ds
unfolding normalize_from
normalize_from-append b [] ds = refl
normalize_from-append b (c ∷ cs) ds = normalize_from-append (normalize_step b c) cs ds

-- Building from names alone stacks them.
normalize_from-names :
    (rooted : Bool) (parts : List String)
    → normalize_from (record { rooted = rooted; parts = [] }) (names parts)
      ≡ record { rooted = rooted; parts = parts }
unfolding normalize_from normalize_step
normalize_from-names rooted [] = refl
normalize_from-names rooted (s ∷ parts) =
    normalize_from-append (record { rooted = rooted; parts = [] }) (names parts) (normal s ∷ [])
    ∙ ap (λ b. normalize_from b (normal s ∷ [])) (normalize_from-names rooted parts)

abbrev nowhere : Built
nowhere = record { rooted = false; parts = [] }

abbrev pub built : PathBuf → Built
built p = normalize_from nowhere (components p)

built-IsPart : (p : PathBuf) → All IsPart (built p).parts
built-IsPart p = from-IsPart nowhere (components p) tt (components-IsNamed p)

components-normalize_path :
    (p : PathBuf)
    → components (normalize_path p)
      ≡ (if (built p).rooted then root_dir ∷ names (built p).parts else names (built p).parts)
unfolding normalize_path
components-normalize_path p = components-render (built p).rooted (built p).parts (built-IsPart p)

abbrev IsBelow : Component → Type 0
IsBelow c = c ≢ root_dir

tail_components-IsBelow : (parts : List String) → All IsBelow (tail_components parts)
unfolding tail_components
tail_components-IsBelow [] = tt
tail_components-IsBelow (s ∷ parts) = ground (arith, tail_components-IsBelow parts)

head_components-IsBelow : (parts : List String) → All IsBelow (head_components parts)
unfolding head_components
head_components-IsBelow [] = tt
head_components-IsBelow (s ∷ parts) =
    ground (arith, tail_components-IsBelow parts, tail_components-IsBelow (s ∷ parts))

from-rooted :
    (b : Built) (cs : List Component) → All IsBelow cs → (normalize_from b cs).rooted ≡ b.rooted
unfolding normalize_from normalize_step
from-rooted b [] h = refl
from-rooted b (root_dir ∷ cs) h = absurd (h.0 refl)
from-rooted b (cur_dir ∷ cs) h = from-rooted b cs h.1
from-rooted b (parent_dir ∷ cs) h = from-rooted (record b { parts = drop_first b.parts }) cs h.1
from-rooted b (normal s ∷ cs) h = from-rooted (record b { parts = s ∷ b.parts }) cs h.1

built-rooted : (p : PathBuf) → (built p).rooted ≡ is_absolute p
unfolding components normalize_from normalize_step
built-rooted p = elim (Bool-cases (is_absolute p)) [
  | inl e ↦ rw e (
      from-rooted (record { rooted = true; parts = [] }) _ (tail_components-IsBelow (split b'/' p)))
  | inr e ↦ rw e (from-rooted nowhere _ (head_components-IsBelow (split b'/' p)))
]

-- The root, or a file name: neither "." nor "..".
abbrev pub IsPlain : Component → Type 0
IsPlain root_dir = Unit
IsPlain cur_dir = ⊥
IsPlain parent_dir = ⊥
IsPlain (normal s) = IsPart s

All-append-IsPlain :
    (cs : List Component) (c : Component) → All IsPlain cs → IsPlain c → All IsPlain (cs ++ c ∷ [])
All-append-IsPlain [] c h k = (k, tt)
All-append-IsPlain (d ∷ cs) c (g, h) k = (g, All-append-IsPlain cs c h k)

names-IsPlain : (parts : List String) → All IsPart parts → All IsPlain (names parts)
names-IsPlain [] h = tt
names-IsPlain (s ∷ parts) (k, h) =
    All-append-IsPlain (names parts) (normal s) (names-IsPlain parts h) k

rooted-IsPlain :
    (rooted : Bool) (parts : List String)
    → All IsPart parts
    → All IsPlain (if rooted then root_dir ∷ names parts else names parts)
rooted-IsPlain true parts h = (tt, names-IsPlain parts h)
rooted-IsPlain false parts h = names-IsPlain parts h

-- A normalised path has no "." and no "..", and is absolute exactly if the path was.
pub normalize_path_lem :
    (p : PathBuf)
    → All IsPlain (components (normalize_path p)) × (is_absolute (normalize_path p) ≡ is_absolute p)
normalize_path_lem p = (
  rw (components-normalize_path p)
      (rooted-IsPlain (built p).rooted (built p).parts (built-IsPart p)),
  absolute,
)
  where
    absolute : is_absolute (normalize_path p) ≡ is_absolute p
    absolute =
        unfold normalize_path in
        (render-is_absolute (built p).rooted (built p).parts (built-IsPart p)) ∙ built-rooted p

filled_of_absolute : (p : PathBuf) → is_absolute p ≡ true → Text.is_empty p ≡ false
unfolding is_absolute starts_with Text.is_empty
filled_of_absolute String.[] h = cc
filled_of_absolute (String.◌∷◌ c p) h = refl

join-is_absolute : (base p : PathBuf) → is_absolute base ≡ true → is_absolute (join base p) ≡ true
unfolding join
join-is_absolute base p h = ground (arith, under p, under (String.◌++◌ "/" p))
  where
    under : (s : String) → is_absolute (String.◌++◌ base s) ≡ true
    under s = unfold is_absolute in (starts_with-append b'/' base s (filled_of_absolute base h)) ∙ h

-- A path that is resolved against an absolute folder is absolute, with no "." and no "..".
pub resolve_pathbuf_lem :
    (base_dir p : PathBuf)
    → is_absolute base_dir ≡ true
    → (is_absolute (resolve_pathbuf base_dir p) ≡ true)
      × All IsPlain (components (resolve_pathbuf base_dir p))
unfolding resolve_pathbuf
resolve_pathbuf_lem base_dir p h = elim (Bool-cases (is_absolute p)) [
  | inl e ↦ rw e ((normalize_path_lem p).1 ∙ e, (normalize_path_lem p).0)
  | inr e ↦ rw e (
    (normalize_path_lem (join base_dir p)).1 ∙ join-is_absolute base_dir p h,
    (normalize_path_lem (join base_dir p)).0,
  )
]
