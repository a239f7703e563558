-- ===== src/Pep/Intent/Confined.antt =====
-- What an intent can make the machine run.
use confidential_agent.Common.{
  ℕ, String, Option, none, some, List, ◌++◌, All, Any, ◌≡◌, ◌⊎◌, inl, inr, refl, ap, ◌==◌, nat_eq,
  string_eq, Bool-cases, Option-cases,
}
use confidential_agent.Common.Text.{to_ascii_lowercase}
use confidential_agent.Common.Json
use confidential_agent.Common.Json.{Json}
use confidential_agent.Spec.Types.{PathBuf}
use confidential_agent.Spec.Paths.{Component, components}
use confidential_agent.Pep.{
  Outcome, fail, success, panics, map_err, Command, World, PepConfig, PepError, ExecOutput,
  AttestationRequest, IntentEnvelope,
}
use confidential_agent.Pep.Host.{Host}
use confidential_agent.Pep.Host.Added.{
  Adds, Extends, lift-Adds, bind-Adds, bind_lift-Adds, wrap_err-Adds, attempt-Adds, seq_lift-Adds,
  weaken-Adds, unique_id-Adds, now-Adds,
}
use confidential_agent.Pep.Policy.{canonicalize_existing_dir, strip_components}
use confidential_agent.Pep.Policy.Allowed.{
  IsUnder, ensure_allowed_workdir_iff, strip_components_iff,
}
use confidential_agent.Pep.Policy.Denied.{Occurs, ensure_command_policy_iff}
use confidential_agent.Pep.Process.{remove_command}
use confidential_agent.Pep.Process.Cleanup.{capture-Adds, capture_with_cleanup-Adds}
use confidential_agent.Pep.Sandbox.{
  docker_command, container_path, host_to_container_path, run_exec_in_docker,
  reference_value_load_command, load_reference_values, get_evidence_command, load_command_of,
  verify_command, verify_evidence, execute_attestation_request, guest_reference_values,
}
use confidential_agent.Pep.Intent.{Executed, check_method, execute, report, handle_intent}

-- The container's command, with the workspace's folder as its only mount and the request's folder,
-- which is in the workspace, as its working directory.
pub record InContainer (host : Host) (config : PepConfig) (workdir : PathBuf) (command : String)
    (c : Command) : Type 0 where
  pub root : PathBuf
  pub resolved : canonicalize_existing_dir host config.workspace_host_path ≡ success root
  pub rest : List Component
  pub inside : components workdir ≡ components root ++ rest
  pub place : String
  pub placed : container_path config (some rest) ≡ success place
  pub owner : ℕ × ℕ
  pub name : String
  pub same : c ≡ docker_command config root place owner name command

-- A command that an intent may spawn: the container's, the removal of a container, or the
-- attestation client.
abbrev pub IsConfined : Host → PepConfig → PathBuf → String → Command → Type 0
IsConfined host config workdir command c =
    InContainer host config workdir command c
    ⊎ (((name : String) × (c ≡ remove_command "docker" name))
        ⊎ (c.program ≡ "/usr/bin/attestation-challenge-client"))

host_to_container_path-success :
    (workdir root : PathBuf) (config : PepConfig) (place : String)
    → host_to_container_path workdir root config ≡ success place
    → (rest : List Component) × (components workdir ≡ components root ++ rest)
      × (container_path config (some rest) ≡ success place)
unfolding host_to_container_path container_path
host_to_container_path-success workdir root config place h =
    elim (Option-cases (strip_components (components root) (components workdir))) [
      | inl e ↦ absurd (
          let f : ◌≡◌ {A = Outcome String String} (fail "workdir is outside workspace root")
              (success place) =
            rw e at h in
          cc)
      | inr (rest, e) ↦
          (rest, (strip_components_iff (components root) (components workdir) rest).0 e, rw e at h)
    ]

by_load :
    (rv_path : String) (value : Json) (load : Command)
    → ◌≡◌ {A = Option Command} (some (load_command_of rv_path value)) (some load)
    → load.program ≡ "/usr/bin/attestation-challenge-client"
unfolding load_command_of
by_load rv_path value load g = elim (Option-cases (Json.get value "rv_list")) [
  | inl e ↦ let f = rw (e, load_command_of) at g in cc
  | inr (list, e) ↦ let f = rw (e, load_command_of) at g in cc
]

get_evidence-client :
    (request : AttestationRequest) (path : String)
    → (get_evidence_command request path).program ≡ "/usr/bin/attestation-challenge-client"
unfolding get_evidence_command
get_evidence-client request path = refl

verify-client :
    (request : AttestationRequest) (path : String)
    → (verify_command request path).program ≡ "/usr/bin/attestation-challenge-client"
unfolding verify_command
verify-client request path = refl

module _ (host : Host) (config : PepConfig) (workdir : PathBuf) (command : String) where
  abbrev Confined : Command → Type 0
  Confined = IsConfined host config workdir command

  run_exec_in_docker-Adds : Adds Confined (run_exec_in_docker host config workdir command)
  unfolding run_exec_in_docker
  run_exec_in_docker-Adds = bind_lift-Adds Confined _ _ (λ root resolved.
      bind_lift-Adds Confined _ _ (λ place placed.
        bind-Adds Confined _ _ (lift-Adds Confined _) (λ owner.
          bind-Adds Confined _ _ (unique_id-Adds String Confined host "cai-pep") (λ name.
            let (rest, inside, there) =
              host_to_container_path-success workdir root config place placed in
            capture_with_cleanup-Adds host Confined
              (docker_command config root place owner name command) config.stdout_max_bytes
              config.stderr_max_bytes config.timeout_secs (some name)
              (inl (record {
                root = root;
                resolved = resolved;
                rest = rest;
                inside = inside;
                place = place;
                placed = there;
                owner = owner;
                name = name;
                same = refl;
              }))
              (inr (inl (name, refl)))))))

  load_command-Confined :
      (rv_path : String) (load : Command)
      → reference_value_load_command host rv_path ≡ some load
      → Confined load
  unfolding reference_value_load_command
  load_command-Confined rv_path load h = elim (Option-cases (host.read_text rv_path)) [
    | inl e ↦ absurd (
        let f : ◌≡◌ {A = Option Command} none (some load) =
          rw (e, reference_value_load_command) at h in
        cc)
    | inr (content, e) ↦ elim (Option-cases (host.parse_json content)) [
      | inl f ↦ absurd (
          let g : ◌≡◌ {A = Option Command} none (some load) =
            rw (e, f, reference_value_load_command) at h in
          cc)
      | inr (value, f) ↦
          inr (inr (by_load rv_path value load (rw (e, f, reference_value_load_command) at h)))
    ]
  ]

  load_reference_values-Adds :
      (load : Option Command) (stdout_max stderr_max timeout_secs : ℕ)
      → ((c : Command) → load ≡ some c → Confined c)
      → Adds Confined (load_reference_values host load stdout_max stderr_max timeout_secs)
  unfolding load_reference_values
  load_reference_values-Adds none stdout_max stderr_max timeout_secs h = lift-Adds Confined _
  load_reference_values-Adds (some load) stdout_max stderr_max timeout_secs h =
      bind-Adds Confined _ _
        (attempt-Adds Confined _
          (capture-Adds host Confined load stdout_max stderr_max timeout_secs (h load refl)))
        (λ loaded. lift-Adds Confined _)

  verify_evidence-Adds :
      (request : AttestationRequest) (stdout_max stderr_max timeout_secs : ℕ)
      (evidence_path warnings : String) (output : ExecOutput)
      → Adds Confined (
          verify_evidence host request stdout_max stderr_max timeout_secs evidence_path warnings
            output)
  unfolding verify_evidence
  verify_evidence-Adds request stdout_max stderr_max timeout_secs evidence_path warnings output =
      elim (Bool-cases (output.exit_code == 0)) [
        | inl e ↦ rw e (
            bind-Adds Confined _ _
              (capture-Adds host Confined (verify_command request evidence_path) stdout_max
                stderr_max timeout_secs (inr (inr (verify-client request evidence_path))))
              (λ verified. lift-Adds Confined _))
        | inr e ↦ rw e (lift-Adds Confined _)
      ]

  execute_attestation_request-Adds :
      (request : AttestationRequest) (stdout_max stderr_max timeout_secs : ℕ)
      → Adds Confined (execute_attestation_request host request stdout_max stderr_max timeout_secs)
  unfolding execute_attestation_request
  execute_attestation_request-Adds request stdout_max stderr_max timeout_secs =
      bind-Adds Confined _ _
        (load_reference_values-Adds (reference_value_load_command host guest_reference_values)
          stdout_max stderr_max timeout_secs (load_command-Confined guest_reference_values))
        (λ loaded. bind-Adds Confined _ _ (now-Adds String Confined host) (λ at.
          bind-Adds Confined _ _
            (capture-Adds host Confined _ stdout_max stderr_max timeout_secs
              (inr (inr (get_evidence-client request _))))
            (λ output. verify_evidence-Adds request stdout_max stderr_max timeout_secs _ _ output)))

  execute-Adds :
      (audit_id : String) (attestation : Option AttestationRequest)
      → Adds Confined (execute host config workdir command audit_id attestation)
  unfolding execute
  execute-Adds audit_id none =
      bind-Adds Confined _ _ (wrap_err-Adds Confined _ _ run_exec_in_docker-Adds)
        (λ exec. lift-Adds Confined _)
  execute-Adds audit_id (some attestation) =
      bind-Adds Confined _ _
        (wrap_err-Adds Confined _ _ (
          execute_attestation_request-Adds attestation config.stdout_max_bytes
            config.stderr_max_bytes _))
        (λ exec. lift-Adds Confined _)

report-Adds :
    (P : Command → Type 0) (host : Host) (command : String) (started : ℕ) (audit_id : String)
    (executed : Executed)
    → Adds P (report host command started audit_id executed)
unfolding report
report-Adds P host command started audit_id executed =
    bind-Adds P _ _ (now-Adds PepError P host)
      (λ ended. bind-Adds P _ _ (lift-Adds P _) (λ summary. lift-Adds P _))

-- The request passed every check.
pub record IsPermitted (host : Host) (config : PepConfig) (request : IntentEnvelope) : Type 0 where
  pub submitted : request.method ≡ "submit_intent"
  pub exec : request.params.tool_name ≡ "exec"
  pub workdir : PathBuf
  pub resolved : canonicalize_existing_dir host request.params.params.workdir ≡ success workdir
  pub allowed : Any (IsUnder host workdir) config.allowed_workspace_prefixes
  pub no_pattern :
      All
        (λ (p : String).
          ¬ Occurs (to_ascii_lowercase p) (to_ascii_lowercase request.params.params.command))
        config.denied_command_patterns
  pub no_path :
      All
        (λ (p : String).
          ¬ Occurs (to_ascii_lowercase p) (to_ascii_lowercase request.params.params.command))
        config.denied_path_prefixes

check_method-success :
    (request : IntentEnvelope)
    → check_method request ≡ success tt
    → (request.method ≡ "submit_intent") × (request.params.tool_name ≡ "exec")
unfolding check_method
check_method-success request h = elim (Bool-cases (request.method == "submit_intent")) [
  | inl e ↦ elim (Bool-cases (request.params.tool_name == "exec")) [
    | inl f ↦ (
      (string_eq.beq_iff request.method "submit_intent").0 e,
      (string_eq.beq_iff request.params.tool_name "exec").0 f,
    )
    | inr f ↦ absurd (cc (rw (e, f, check_method) at h))
  ]
  | inr e ↦ absurd (cc (rw (e, check_method) at h))
]

success_injective :
    {p q : PathBuf} → ◌≡◌ {A = Outcome PepError PathBuf} (success p) (success q) → p ≡ q
success_injective h = cc

resolve-success :
    (f : String → PepError) (r : Outcome String PathBuf) (workdir : PathBuf)
    → map_err f r ≡ success workdir
    → r ≡ success workdir
resolve-success f (fail e) workdir h = cc
resolve-success f (success p) workdir h = ap success (success_injective h)
resolve-success f panics workdir h = cc

-- A command with the permission that it needs.
abbrev pub IsAuthorized : Host → IntentEnvelope → PepConfig → Command → Type 0
IsAuthorized host request config c =
    (p : IsPermitted host config request) × IsConfined host config p.workdir
      request.params.params.command c

handle_intent-Adds :
    (host : Host) (request : IntentEnvelope) (config : PepConfig)
    → Adds (IsAuthorized host request config) (handle_intent host request config)
unfolding handle_intent
handle_intent-Adds host request config =
    let P = IsAuthorized host request config in
    let command = request.params.params.command in
    seq_lift-Adds P _ _ (λ right_method.
      bind-Adds P _ _ (unique_id-Adds PepError P host "audit") (λ audit_id.
        bind-Adds P _ _ (now-Adds PepError P host) (λ started.
          bind_lift-Adds P _ _ (λ workdir resolved. seq_lift-Adds P _ _ (λ allowed.
            seq_lift-Adds P _ _ (λ policy. bind-Adds P _ _ (lift-Adds P _) (λ attestation.
              bind-Adds P _ _
                (weaken-Adds (IsConfined host config workdir command) P _
                  (λ c confined. (
                    record {
                      submitted = (check_method-success request right_method).0;
                      exec = (check_method-success request right_method).1;
                      workdir = workdir;
                      resolved = resolve-success _ _ workdir resolved;
                      allowed = (ensure_allowed_workdir_iff host workdir config audit_id).0 allowed;
                      no_pattern = ((ensure_command_policy_iff command config audit_id).0 policy).0;
                      no_path = ((ensure_command_policy_iff command config audit_id).0 policy).1;
                    },
                    confined,
                  ))
                  (execute-Adds host config workdir command audit_id attestation))
                (λ executed. report-Adds P host command started audit_id executed))))))))

-- Whatever the request, `handle_intent` spawns only commands of three kinds: the container's with the
-- request's command, the removal of a container, and the attestation client. It spawns any at all only
-- if the method and the tool are the ones that it serves, the folder resolves to one under an allowed
-- prefix, and no denied pattern or path occurs in the command.
pub handle_intent-IsConfined :
    (host : Host) (request : IntentEnvelope) (config : PepConfig) (w : World)
    → Extends (IsAuthorized host request config) w ((handle_intent host request config).run w).1
handle_intent-IsConfined host request config w = (handle_intent-Adds host request config).added w
