-- ===== src/Pep/Policy.antt =====
-- cai-pep/src/main.rs: which folders and commands the policy allows, and which commands are the helper's.
-- A canonical path is a text of plain parts after "/".
pub mod Denied
pub mod Allowed
use Prim.Native.Char.{Char, len_utf8}
use Prim.Native.String
use confidential_agent.Common.{
  ℕ, zero, suc, ◌-◌, String, Bool, true, false, not, ◌&&◌, ◌||◌, Option, none, some, List, [], ◌∷◌,
  if◌then◌else◌, ◌==◌, nat_eq, string_eq, leb, ltb, length,
}
use confidential_agent.Common.Text.{
  concat, contains_text, ends_with, to_ascii_lowercase, trim, byte_len,
}
use confidential_agent.Common.Json.{Json, Elems, Members}
use confidential_agent.Spec.Types.{PathBuf}
use confidential_agent.Spec.Paths.{Component, root_dir, cur_dir, parent_dir, normal, components}
use confidential_agent.Pep.{
  Outcome, fail, success, panics, map_err, ok_or, ◌>>=◌, ◌>>◌, PepConfig, PepError, policy_deny,
  AttestationRequest,
}
use confidential_agent.Pep.Host.{Host}

unfoldable pub same_component : Component → Component → Bool
same_component root_dir root_dir = true
same_component cur_dir cur_dir = true
same_component parent_dir parent_dir = true
same_component (normal s) (normal t) = s == t
same_component _ _ = false

-- What follows a path's first components, if they are those of the prefix.
unfoldable pub strip_components : List Component → List Component → Option (List Component)
strip_components [] cs = some cs
strip_components (p ∷ prefix) [] = none
strip_components (p ∷ prefix) (c ∷ cs) =
    let rest = strip_components prefix cs in if same_component p c then rest else none

abbrev pub is_some : {A : Type 0} → Option A → Bool
is_some none = false
is_some (some a) = true

-- `path.starts_with(prefix)`
unfoldable pub path_starts_with : PathBuf → PathBuf → Bool
path_starts_with prefix path = is_some (strip_components (components prefix) (components path))

-- `&s[..n]`, which panics where `n` splits a character.
unfoldable pub take_bytes : ℕ → String → Option String
take_bytes zero s = some ""
take_bytes (suc n) String.[] = none
take_bytes (suc n) (String.◌∷◌ c s) =
    let rest = take_bytes (suc n - len_utf8 c) s in
    if leb (len_utf8 c) (suc n) then cons_char c rest else none
  where
    cons_char : Char → Option String → Option String
    cons_char c none = none
    cons_char c (some s) = some (String.◌∷◌ c s)

unfoldable pub summarize_command : {E : Type 0} → String → Outcome E String
summarize_command command =
    let trimmed = trim command in
    if leb (byte_len trimmed) 120
    then success trimmed
    else elim (take_bytes 120 trimmed) [ none ↦ panics | some s ↦ success (String.◌++◌ s "...") ]

abbrev pub json_strings : List String → Elems
json_strings [] = Elems.nil
json_strings (s ∷ items) = Elems.cons (Json.str s) (json_strings items)

abbrev pub json_field : String → Json → Json
json_field key value = Json.obj (Members.member key value Members.end)

module _ (host : Host) where
  unfoldable pub canonicalize_existing_dir : String → Outcome String PathBuf
  canonicalize_existing_dir path =
      if not (host.exists path)
      then fail (String.◌++◌ "path does not exist: " path)
      else map_err (String.◌++◌ "canonicalize failed: ") (host.canonicalize path) >>= λ canonical.
          if not (host.is_dir canonical)
          then fail (String.◌++◌ "path is not a directory: " canonical)
          else success canonical

  -- Whether the folder is under a prefix; a prefix that does not resolve is passed over.
  unfoldable pub under : PathBuf → Outcome String PathBuf → Bool
  under workdir (success prefix) = path_starts_with prefix workdir
  under workdir _ = false

  -- The loop of `ensure_allowed_workdir`.
  unfoldable pub any_allowed : PathBuf → List String → Bool
  any_allowed workdir [] = false
  any_allowed workdir (allowed ∷ prefixes) =
      under workdir (canonicalize_existing_dir allowed) || any_allowed workdir prefixes

  unfoldable pub ensure_allowed_workdir : PathBuf → PepConfig → String → Outcome PepError (Unit {0})
  ensure_allowed_workdir workdir config audit_id =
      if any_allowed workdir config.allowed_workspace_prefixes
      then success tt
      else fail (
          policy_deny "fs.workdir_prefix" "workdir is outside allowed workspace prefixes"
            (Json.obj (
              Members.member "allowed_prefixes"
                (Json.arr (json_strings config.allowed_workspace_prefixes))
                (Members.member "workdir" (Json.str workdir) Members.end)))
            audit_id)

-- The first of the patterns that the lowered command contains.
unfoldable pub find_denied : String → List String → Option String
find_denied lowered [] = none
find_denied lowered (pattern ∷ patterns) =
    if contains_text (to_ascii_lowercase pattern) lowered
    then some pattern
    else find_denied lowered patterns

abbrev deny_pattern : String → Option String → Outcome PepError (Unit {0})
deny_pattern audit_id none = success tt
deny_pattern audit_id (some pattern) = fail (
    policy_deny "command.deny_pattern" (String.◌++◌ "command contains denied pattern: " pattern)
      (json_field "pattern" (Json.str pattern)) audit_id)

abbrev deny_prefix : String → Option String → Outcome PepError (Unit {0})
deny_prefix audit_id none = success tt
deny_prefix audit_id (some prefix) = fail (
    policy_deny "fs.deny_prefix" (String.◌++◌ "requested path is not allowed: " prefix)
      (json_field "path_prefix" (Json.str prefix)) audit_id)

unfoldable pub ensure_command_policy : String → PepConfig → String → Outcome PepError (Unit {0})
ensure_command_policy command config audit_id =
    let lowered = to_ascii_lowercase command in
    deny_pattern audit_id (find_denied lowered config.denied_command_patterns)
    >> deny_prefix audit_id (find_denied lowered config.denied_path_prefixes)
