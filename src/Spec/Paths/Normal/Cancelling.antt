-- ===== src/Spec/Paths/Normal/Cancelling.antt =====
-- What normalising does to a path's components, one cancellation at a time.
use confidential_agent.Common.{
  String, Bool, true, false, List, [], ◌∷◌, ◌++◌, All, ◌≡◌, refl, sym, ap, subst, if◌then◌else◌,
  inl, inr, Bool-cases,
}
use confidential_agent.Common.Text.{split}
use confidential_agent.Spec.Paths.{
  PathBuf, Component, root_dir, cur_dir, parent_dir, normal, Built, is_absolute, components,
  normalize_step, normalize_from, normalize_path,
}
use confidential_agent.Spec.Paths.Components.{names}
use confidential_agent.Spec.Paths.Normal.{
  IsBelow, IsPlain, built, components-normalize_path, normalize_path_lem, tail_components-IsBelow,
  head_components-IsBelow,
}

-- One cancellation: a "." anywhere, a name with the ".." after it, a ".." of the root, and a ".." at the
-- head of a relative path.
pub data Cancels : List Component → List Component → Type 0 where
  current : (xs ys : List Component) → Cancels (xs ++ cur_dir ∷ ys) (xs ++ ys)
  step_up :
      (xs ys : List Component) (s : String) → Cancels (xs ++ normal s ∷ parent_dir ∷ ys) (xs ++ ys)
  above_root : (ys : List Component) → Cancels (root_dir ∷ parent_dir ∷ ys) (root_dir ∷ ys)
  above_head : (ys : List Component) → Cancels (parent_dir ∷ ys) ys

-- Any number of cancellations.
pub data Reaches : List Component → List Component → Type 0 where
  done : (xs : List Component) → Reaches xs xs
  first : (xs ys zs : List Component) → Cancels xs ys → Reaches ys zs → Reaches xs zs

-- The components of the path that is built.
abbrev shown : Built → List Component
shown b = if b.rooted then root_dir ∷ names b.parts else names b.parts

append-nil : (xs : List Component) → xs ++ [] ≡ xs
append-nil [] = refl
append-nil (x ∷ xs) = ap (λ l. x ∷ l) (append-nil xs)

append-cons :
    (xs : List Component) (c : Component) (ys : List Component)
    → (xs ++ c ∷ []) ++ ys ≡ xs ++ c ∷ ys
append-cons [] c ys = refl
append-cons (x ∷ xs) c ys = ap (λ l. x ∷ l) (append-cons xs c ys)

-- A name on the stack, before what is still to be read.
shown-push :
    (rooted : Bool) (s : String) (parts : List String) (cs : List Component)
    → shown (record { rooted = rooted; parts = s ∷ parts }) ++ cs
      ≡ shown (record { rooted = rooted; parts = parts }) ++ normal s ∷ cs
shown-push true s parts cs = append-cons (root_dir ∷ names parts) (normal s) cs
shown-push false s parts cs = append-cons (names parts) (normal s) cs

from-Reaches :
    (rooted : Bool) (parts : List String) (cs : List Component)
    → All IsBelow cs
    → let b : Built = record { rooted = rooted; parts = parts } in
      Reaches (shown b ++ cs) (shown (normalize_from b cs))
unfolding normalize_from normalize_step
from-Reaches r parts [] h =
    let b : Built = record { rooted = r; parts = parts } in
    subst (λ l. Reaches l (shown b)) (sym (append-nil (shown b))) (done (shown b))
from-Reaches r parts (root_dir ∷ cs) h = absurd (h.0 refl)
from-Reaches r parts (cur_dir ∷ cs) h =
    first _ _ _ (current (shown (record { rooted = r; parts = parts })) cs)
      (from-Reaches r parts cs h.1)
from-Reaches r (s ∷ parts) (parent_dir ∷ cs) h =
    let below : Built = record { rooted = r; parts = parts } in
    subst (λ l. Reaches l (shown (normalize_from below cs)))
      (sym (shown-push r s parts (parent_dir ∷ cs)))
      (first _ _ _ (step_up (shown below) cs s) (from-Reaches r parts cs h.1))
from-Reaches true [] (parent_dir ∷ cs) h = first _ _ _ (above_root cs) (from-Reaches true [] cs h.1)
from-Reaches false [] (parent_dir ∷ cs) h =
    first _ _ _ (above_head cs) (from-Reaches false [] cs h.1)
from-Reaches r parts (normal s ∷ cs) h =
    let above : Built = record { rooted = r; parts = s ∷ parts } in
    subst (λ l. Reaches l (shown (normalize_from above cs))) (shown-push r s parts cs)
      (from-Reaches r (s ∷ parts) cs h.1)

components-Reaches : (p : PathBuf) → Reaches (components p) (shown (built p))
unfolding components normalize_from normalize_step
components-Reaches p = elim (Bool-cases (is_absolute p)) [
  | inl e ↦ rw e (from-Reaches true [] _ (tail_components-IsBelow (split b'/' p)))
  | inr e ↦ rw e (from-Reaches false [] _ (head_components-IsBelow (split b'/' p)))
]

-- The components of a normalised path are reached from the path's own by dropping each ".", each
-- name with the ".." after it, and each ".." that has the root or nothing before it, until no "." and
-- no ".." is left; the path is absolute exactly if it was.
pub normalize_path-Reaches :
    (p : PathBuf)
    → Reaches (components p) (components (normalize_path p))
      × All IsPlain (components (normalize_path p))
      × (is_absolute (normalize_path p) ≡ is_absolute p)
normalize_path-Reaches p = (
  subst (Reaches (components p)) (sym (components-normalize_path p)) (components-Reaches p),
  (normalize_path_lem p).0,
  (normalize_path_lem p).1,
)
