-- ===== src/Spec/Paths.antt =====
-- core/src/spec.rs: the paths of a spec, resolved against the folder of its file, with
-- `std::path`'s components, `join`, `push` and `pop` on Unix.
pub mod Components
pub mod Normal
mod Examples
use Prim.Native.String
use confidential_agent.Common.{
  String, Bool, true, false, not, ◌&&◌, Option, none, some, List, [], ◌∷◌, map, ◌==◌, string_eq,
  if◌then◌else◌, ◌||◌, nat_eqb,
}
use confidential_agent.Common.Text
use confidential_agent.Common.Text.{empty_text, split, starts_with, trim_end_matches}
use confidential_agent.Common.BTree.{BTreeMap}
use confidential_agent.Spec.Types.{
  PathBuf, AgentSpec, BuildSpec, BuildFileSpec, BuildContainerSpec, BuildVariantSpec, DeploySpec,
  PublishedImageSpec, RekorSpec, ResourceSpec,
}

pub data Component : Type 0 where
  root_dir cur_dir parent_dir : Component
  normal : String → Component

-- `Path::is_absolute`
unfoldable pub is_absolute : PathBuf → Bool
is_absolute p = starts_with b'/' p

abbrev part_component : String → Component
part_component s = if s == ".." then parent_dir else normal s

-- The parts after the first: empty ones and "." are no components.
unfoldable pub tail_components : List String → List Component
tail_components [] = []
tail_components (s ∷ parts) =
    if s == ""
    then tail_components parts
    else if s == "."
    then tail_components parts
    else part_component s ∷ tail_components parts

-- The first part of a relative path may be ".".
unfoldable pub head_components : List String → List Component
head_components [] = []
head_components (s ∷ parts) =
    if s == "." then cur_dir ∷ tail_components parts else tail_components (s ∷ parts)

-- `Path::components`
unfoldable pub components : PathBuf → List Component
components p =
    if is_absolute p
    then root_dir ∷ tail_components (split b'/' p)
    else head_components (split b'/' p)

-- The path that `normalize_path` builds, last part first: whether it has a root, and its parts.
pub record Built : Type 0 where
  pub rooted : Bool
  pub parts : List String

abbrev drop_first : List String → List String
drop_first [] = []
drop_first (s ∷ parts) = parts

-- One round of `normalize_path`: `pop` leaves "/" and "" as they are, and a push of the root
-- replaces the path.
unfoldable pub normalize_step : Built → Component → Built
normalize_step b cur_dir = b
normalize_step b parent_dir = record b { parts = drop_first b.parts }
normalize_step b root_dir = record { rooted = true; parts = [] }
normalize_step b (normal s) = record b { parts = s ∷ b.parts }

unfoldable pub normalize_from : Built → List Component → Built
normalize_from b [] = b
normalize_from b (c ∷ cs) = normalize_from (normalize_step b c) cs

-- The text of the path that was built, by the separators that `push` puts.
unfoldable pub render_parts : Bool → List String → PathBuf
render_parts rooted [] = if rooted then "/" else ""
render_parts rooted (s ∷ []) = if rooted then String.◌++◌ "/" s else s
render_parts rooted (s ∷ t ∷ parts) =
    String.◌++◌ (render_parts rooted (t ∷ parts)) (String.◌++◌ "/" s)

unfoldable pub normalize_path : PathBuf → PathBuf
normalize_path p =
    let b = normalize_from (record { rooted = false; parts = [] }) (components p) in
    render_parts b.rooted b.parts

abbrev ends_with_slash : PathBuf → Bool
ends_with_slash p = not (Text.trim_end_matches (λ c. nat_eqb c b'/') p == p)

-- `base.join(path)`: an absolute path replaces the base.
unfoldable pub join : PathBuf → PathBuf → PathBuf
join base p =
    if is_absolute p
    then p
    else if Text.is_empty base || ends_with_slash base
    then String.◌++◌ base p
    else String.◌++◌ base (String.◌++◌ "/" p)

unfoldable pub resolve_pathbuf : PathBuf → PathBuf → PathBuf
resolve_pathbuf base_dir p =
    let joined = if not (is_absolute p) then join base_dir p else p in normalize_path joined
