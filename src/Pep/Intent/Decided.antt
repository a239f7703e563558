-- ===== src/Pep/Intent/Decided.antt =====
-- Where a request is decided, and what was spawned before.
use confidential_agent.Common.{
  ℕ, ◌+◌, ◌%◌, ◌^◌, String, Option, none, some, ◌≡◌, ◌≢◌, refl, sym, ap, ◌∙◌, inl, inr,
  Option-cases, leb, Bool-cases,
}
use confidential_agent.Common.Text.{trim, byte_len}
use confidential_agent.Spec.Types.{PathBuf}
use confidential_agent.Pep.{
  Outcome, fail, success, panics, map_err, World, Io, PepConfig, PepError, policy_deny, bad_request,
  execution, IntentEnvelope, IntentErrorResult, IntentResponse, AttestationRequest,
}
use confidential_agent.Pep.Host.{Host, ◌>>=◌, ◌>>◌, lift, continue, wrap_err, now, unique_id}
use confidential_agent.Pep.Response.{response_of}
use confidential_agent.Pep.Policy.{summarize_command, take_bytes}
use confidential_agent.Pep.Intent.{
  Executed, failed_execution, execute, report, handle_intent, handle_stream,
}

abbrev IsRefusal : {A : Type 0} → Outcome PepError A → Type 0
IsRefusal (success a) = ⊥
IsRefusal panics = ⊥
IsRefusal (fail (policy_deny rule_id message detail audit_id)) = Unit
IsRefusal (fail (bad_request message)) = Unit
IsRefusal (fail (execution message audit_id detail)) = ⊥

-- A step that refuses has spawned nothing.
record IsQuiet {A : Type 0} (m : Io PepError A) : Type 0 where
  quiet : (w : World) → IsRefusal (m.run w).0 → (m.run w).1.spawned ≡ w.spawned

-- A step that never refuses.
record Accepts {A : Type 0} (m : Io PepError A) : Type 0 where
  accepts : (w : World) → ¬ IsRefusal (m.run w).0

Accepts-IsQuiet : {A : Type 0} (m : Io PepError A) → Accepts m → IsQuiet m
Accepts-IsQuiet m h = record { quiet = λ w r. absurd (h.accepts w r) }

module _ {A B : Type 0} where
  bind_lift-IsQuiet :
      (m : Outcome PepError A) (next : A → Io PepError B)
      → ((a : A) → IsQuiet (next a))
      → IsQuiet (lift m >>= next)
  unfolding lift ◌>>=◌
  bind_lift-IsQuiet (fail e) next h = record { quiet = λ w r. refl }
  bind_lift-IsQuiet (success a) next h = record { quiet = (h a).quiet }
  bind_lift-IsQuiet panics next h = record { quiet = λ w r. refl }

  continue-Accepts :
      (next : A → Io PepError B) (r : Outcome PepError A × World)
      → ¬ IsRefusal r.0
      → ((a : A) → Accepts (next a))
      → ¬ IsRefusal (continue next r).0
  continue-Accepts next (fail (policy_deny _ _ _ _), w) n h k = n k
  continue-Accepts next (fail (bad_request _), w) n h k = n k
  continue-Accepts next (fail (execution _ _ _), w) n h k = k
  continue-Accepts next (success a, w) n h k = (h a).accepts w k
  continue-Accepts next (panics, w) n h k = k

  bind-Accepts :
      (m : Io PepError A) (next : A → Io PepError B)
      → Accepts m
      → ((a : A) → Accepts (next a))
      → Accepts (m >>= next)
  unfolding ◌>>=◌
  bind-Accepts m next h k = record {
    accepts = λ w. continue-Accepts next (m.run w) (h.accepts w) k;
  }

module _ {B : Type 0} where
  seq_lift-IsQuiet :
      (m : Outcome PepError (Unit {0})) (next : Io PepError B)
      → IsQuiet next
      → IsQuiet (lift m >> next)
  unfolding lift ◌>>◌
  seq_lift-IsQuiet (fail e) next h = record { quiet = λ w r. refl }
  seq_lift-IsQuiet (success done) next h = record { quiet = h.quiet }
  seq_lift-IsQuiet panics next h = record { quiet = λ w r. refl }

  unique_id-IsQuiet :
      (host : Host) (prefix : String) (next : String → Io PepError B)
      → ((s : String) → IsQuiet (next s))
      → IsQuiet (unique_id host prefix >>= next)
  unfolding unique_id ◌>>=◌
  unique_id-IsQuiet host prefix next h = record {
    quiet = λ w r. (h _).quiet (record w { next_id = (w.next_id + 1) % 2 ^ 64 }) r;
  }

  now-IsQuiet :
      (host : Host) (next : ℕ → Io PepError B)
      → ((n : ℕ) → IsQuiet (next n))
      → IsQuiet (now host >>= next)
  unfolding now ◌>>=◌
  now-IsQuiet host next h = record { quiet = λ w r. (h (host.now_ms w)).quiet w r }

  now-Accepts :
      (host : Host) (next : ℕ → Io PepError B)
      → ((n : ℕ) → Accepts (next n))
      → Accepts (now host >>= next)
  unfolding now ◌>>=◌
  now-Accepts host next h = record { accepts = λ w r. (h (host.now_ms w)).accepts w r }

  lift-Accepts : (m : Outcome PepError B) → ¬ IsRefusal m → Accepts (lift m)
  unfolding lift
  lift-Accepts m h = record { accepts = λ w. h }

  map_err-execution :
      (workdir : PathBuf) (mode audit_id : String) (r : Outcome String B)
      → ¬ IsRefusal (map_err (failed_execution workdir mode audit_id) r)
  map_err-execution workdir mode audit_id (fail e) k = k
  map_err-execution workdir mode audit_id (success a) k = k
  map_err-execution workdir mode audit_id panics k = k

  wrap_err-Accepts :
      (workdir : PathBuf) (mode audit_id : String) (m : Io String B)
      → Accepts (wrap_err (failed_execution workdir mode audit_id) m)
  unfolding wrap_err
  wrap_err-Accepts workdir mode audit_id m = record {
    accepts = λ w. map_err-execution workdir mode audit_id (m.run w).0;
  }

summarize_command-Accepts :
    (command : String) → ¬ IsRefusal (summarize_command {E = PepError} command)
unfolding summarize_command
summarize_command-Accepts command = elim (Bool-cases (leb (byte_len (trim command)) 120)) [
  | inl e ↦ rw e (λ k. k)
  | inr e ↦ elim (Option-cases (take_bytes 120 (trim command))) [
    | inl f ↦ rw e (rw f (λ k. k))
    | inr (s, f) ↦ rw e (rw f (λ k. k))
  ]
]

error-eq :
    {r s : IntentResponse} → ◌≡◌ {A = Option IntentResponse} (some r) (some s) → r.error ≡ s.error
error-eq {r} {s} h = ap (λ (x : IntentResponse). x.error) (response_injective r s h)
  where
    response_injective :
        (r s : IntentResponse) → ◌≡◌ {A = Option IntentResponse} (some r) (some s) → r ≡ s
    response_injective r s h = cc

error_injective :
    {e f : IntentErrorResult} → ◌≡◌ {A = Option IntentErrorResult} (some e) (some f) → e ≡ f
error_injective h = cc

module _ (host : Host) where
  execute-Accepts :
      (config : PepConfig) (workdir : PathBuf) (command audit_id : String)
      (attestation : Option AttestationRequest)
      → Accepts (execute host config workdir command audit_id attestation)
  unfolding execute
  execute-Accepts config workdir command audit_id none =
      bind-Accepts _ _ (wrap_err-Accepts workdir "docker" audit_id _)
        (λ exec. lift-Accepts _ (λ k. k))
  execute-Accepts config workdir command audit_id (some attestation) =
      bind-Accepts _ _ (wrap_err-Accepts workdir "host-attestation" audit_id _)
        (λ exec. lift-Accepts _ (λ k. k))

  report-Accepts :
      (command : String) (started : ℕ) (audit_id : String) (executed : Executed)
      → Accepts (report host command started audit_id executed)
  unfolding report
  report-Accepts command started audit_id executed = now-Accepts host _ (λ ended.
      bind-Accepts _ _ (lift-Accepts _ (summarize_command-Accepts command))
        (λ summary. lift-Accepts _ (λ k. k)))

  handle_intent-IsQuiet :
      (request : IntentEnvelope) (config : PepConfig) → IsQuiet (handle_intent host request config)
  unfolding handle_intent
  handle_intent-IsQuiet request config = seq_lift-IsQuiet _ _ (
      unique_id-IsQuiet host "audit" _ (λ audit_id. now-IsQuiet host _ (λ started.
        bind_lift-IsQuiet _ _ (λ workdir. seq_lift-IsQuiet _ _ (
          seq_lift-IsQuiet _ _ (
            bind_lift-IsQuiet _ _ (λ attestation. Accepts-IsQuiet _ (
              bind-Accepts _ _
                (execute-Accepts config workdir request.params.params.command audit_id attestation)
                (λ executed.
                  report-Accepts request.params.params.command started audit_id executed)))))))))

  refused_code :
      (id : String) (r : Outcome PepError confidential_agent.Pep.IntentSuccessResult)
      (response : IntentResponse) (e : IntentErrorResult)
      → response_of id r ≡ some response
      → response.error ≡ some e
      → e.code ≢ "EXECUTION_FAILED"
      → IsRefusal r
  unfolding response_of
  refused_code id (success a) response e h k n = absurd (cc (error-eq h ∙ k))
  refused_code id panics response e h k n = absurd (cc h)
  refused_code id (fail (policy_deny _ _ _ _)) response e h k n = tt
  refused_code id (fail (bad_request _)) response e h k n = tt
  refused_code id (fail (execution _ _ _)) response e h k n =
      absurd (n (sym (ap (λ (x : IntentErrorResult). x.code) (error_injective (error-eq h ∙ k)))))

  -- A request that is answered with an error other than a failed execution, which is a refused or a bad
  -- request, has spawned nothing.
  pub handle_stream-refused :
      (request : IntentEnvelope) (config : PepConfig) (w : World) (response : IntentResponse)
      (e : IntentErrorResult)
      → (handle_stream host request config w).0 ≡ some response
      → response.error ≡ some e
      → e.code ≢ "EXECUTION_FAILED"
      → (handle_stream host request config w).1.spawned ≡ w.spawned
  unfolding handle_stream
  handle_stream-refused request config w response e h k n =
      (handle_intent-IsQuiet request config).quiet w
        (refused_code request.id ((handle_intent host request config).run w).0 response e h k n)
