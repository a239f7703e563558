-- ===== src/Spec/Paths/Examples.antt =====
-- Paths of the repository's own tests, and corners of `std::path`.
use confidential_agent.Spec.Paths.Normal.{IsPlain}
use confidential_agent.Spec.Paths.Normal.Cancelling.{Reaches, normalize_path-Reaches}
use confidential_agent.Common.{All, true, ◌≡◌, refl}
use confidential_agent.Common.Text.{split, starts_with, trim_end_matches, is_empty}
use confidential_agent.Spec.Paths.{
  is_absolute, tail_components, head_components, components, normalize_step, normalize_from,
  render_parts, normalize_path, join, resolve_pathbuf,
}

runs : Unit {0}
unfolding is_absolute tail_components head_components components normalize_step normalize_from
    render_parts normalize_path join resolve_pathbuf split starts_with trim_end_matches is_empty
runs = tt

resolved :
    (resolve_pathbuf "/project" "./image/install.sh" ≡ "/project/image/install.sh")
    × (resolve_pathbuf "/project/" "../../../etc//x/." ≡ "/etc/x")
    × (resolve_pathbuf "/project" "/a/../.." ≡ "/")
    × (resolve_pathbuf "a" "../../b" ≡ "b")
unfolding runs
resolved = (refl, refl, refl, refl)

normalize_path-Reaches_example :
    Reaches (components "/a/../b/.") (components (normalize_path "/a/../b/."))
    × All IsPlain (components (normalize_path "/a/../b/."))
    × (is_absolute (normalize_path "/a/../b/.") ≡ is_absolute "/a/../b/.")
normalize_path-Reaches_example = normalize_path-Reaches "/a/../b/."

absolute_project : is_absolute "/project" ≡ true
unfolding runs
absolute_project = refl
