-- ===== src/Gateway/Replay.antt =====
-- A token and its later uses.
use confidential_agent.Common.{
  ℕ, ◌+◌, ◌≤◌, ◌<◌, ◌^◌, String, some, List, [], ◌∷◌, All, ◌≡◌, ◌≢◌, inl, inr, refl, arith,
  string_eq, ok, ap, sym, ◌∙◌, ok_injective, seq-eq-ok_iff, Result-cases,
}
use confidential_agent.Common.Text.{split}
use confidential_agent.Common.BTree.{BTreeMap}
use confidential_agent.Gateway.Accepted.{IsToken, token_claims-IsToken}
use confidential_agent.Gateway.{
  Crates, ServiceClaims, VerifiedCaller, GatewayTrustedService, token_clock_skew_sec, add_u64,
  cache_insert, token_claims, admit, verify_service_token,
}
use confidential_agent.Gateway.Cache.{
  IsHeld, cache_insert-held, cache_insert-IsHeld, cache_insert-taken,
}

-- A call of the verification, with its time.
pub record Request : Type 0 where
  pub audience : String
  pub now : ℕ
  pub token : String

module _ (crates : Crates) (trusted : BTreeMap GatewayTrustedService) where
  -- Verifies the requests one after the other, on one cache.
  unfoldable pub serve : List Request → BTreeMap ℕ → BTreeMap ℕ
  serve [] entries = entries
  serve (r ∷ requests) entries =
      serve requests (verify_service_token crates trusted r.audience r.now r.token entries).0

  verify_service_token-IsHeld :
      (until : ℕ) (jti : String) (r : Request) (entries : BTreeMap ℕ)
      → r.now ≤ until
      → IsHeld until jti entries
      → IsHeld until jti (verify_service_token crates trusted r.audience r.now r.token entries).0
  unfolding verify_service_token admit
  verify_service_token-IsHeld until jti r entries h held =
      elim (Result-cases (token_claims crates trusted r.audience r.now (split b'.' r.token))) [
        | inl (claims, e) ↦
            rw e (cache_insert-IsHeld until r.now jti claims.jti claims.exp entries h held)
        | inr (problem, e) ↦ rw e held
      ]

  serve-IsHeld :
      (until : ℕ) (jti : String) (requests : List Request) (entries : BTreeMap ℕ)
      → All (λ (r : Request). r.now ≤ until) requests
      → IsHeld until jti entries
      → IsHeld until jti (serve requests entries)
  unfolding serve
  serve-IsHeld until jti [] entries h held = held
  serve-IsHeld until jti (r ∷ requests) entries (h, g) held =
      serve-IsHeld until jti requests
        (verify_service_token crates trusted r.audience r.now r.token entries).0 g
        (verify_service_token-IsHeld until jti r entries h held)

  -- What an accepted token had: claims that pass every check, and a fresh id.
  abbrev IsAccepted : Request → BTreeMap ℕ → VerifiedCaller → ServiceClaims → Type 0
  IsAccepted r entries caller claims =
      (token_claims crates trusted r.audience r.now (split b'.' r.token) ≡ ok claims)
      × ((cache_insert claims.jti claims.exp r.now entries).1 ≡ ok tt)
      × (caller.service_id ≡ claims.iss)
      × (caller.jti ≡ claims.jti)

  accepted_lem :
      (r : Request) (entries : BTreeMap ℕ) (caller : VerifiedCaller)
      → (verify_service_token crates trusted r.audience r.now r.token entries).1 ≡ ok caller
      → (claims : ServiceClaims) × IsAccepted r entries caller claims
        × ((verify_service_token crates trusted r.audience r.now r.token entries).0
            ≡ (cache_insert claims.jti claims.exp r.now entries).0)
  unfolding verify_service_token admit
  accepted_lem r entries caller h =
      elim (Result-cases (token_claims crates trusted r.audience r.now (split b'.' r.token))) [
        | inl (claims, e) ↦
            let answer = (cache_insert claims.jti claims.exp r.now entries).1 in
            let caller_of : VerifiedCaller = record { service_id = claims.iss; jti = claims.jti } in
            let (taken, same) = (seq-eq-ok_iff answer (ok caller_of)).0 (rw e at h) in
            let is_caller = ok_injective same in
            (
              claims,
              (
                e,
                taken,
                ap (λ (c : VerifiedCaller). c.service_id) (sym is_caller),
                ap (λ (c : VerifiedCaller). c.jti) (sym is_caller),
              ),
              rw e refl,
            )
        | inr (problem, e) ↦ let failed = rw e at h in cc
      ]

  -- Where a token with these claims was accepted, no token with its id is accepted again at a time up to
  -- thirty seconds past its expiry, in 64 bits, whatever requests come between in that time.
  pub verify_service_token-replayed :
      (r again : Request) (requests : List Request) (entries : BTreeMap ℕ) (claims : ServiceClaims)
      (caller other : VerifiedCaller)
      → token_claims crates trusted r.audience r.now (split b'.' r.token) ≡ ok claims
      → (verify_service_token crates trusted r.audience r.now r.token entries).1 ≡ ok caller
      → All (λ (q : Request). q.now ≤ add_u64 claims.exp token_clock_skew_sec) requests
      → again.now ≤ add_u64 claims.exp token_clock_skew_sec
      → other.jti ≡ caller.jti
      → let after = (verify_service_token crates trusted r.audience r.now r.token entries).0 in
        (verify_service_token crates trusted again.audience again.now again.token
          (serve requests after)).1
        ≢ ok other
  verify_service_token-replayed r again requests entries claims caller other read h between soon
        same accepted =
      let (found, (read', taken, _, named), after) = accepted_lem r entries caller h in
      let is_found : found ≡ claims = ok_injective (sym read' ∙ read) in
      let until = add_u64 claims.exp token_clock_skew_sec in
      let held = cache_insert-taken claims.jti claims.exp r.now entries (rw is_found at taken) in
      let left = (verify_service_token crates trusted r.audience r.now r.token entries).0 in
      let held_after : IsHeld until claims.jti left = rw (rw is_found at after) held in
      let held_then = serve-IsHeld until claims.jti requests left between held_after in
      let (claims', (_, taken', _, named'), _) =
        accepted_lem again (serve requests left) other accepted in
      let one_id : claims'.jti ≡ claims.jti = sym named' ∙ same ∙ (rw is_found at named) in
      cache_insert-held until again.now claims'.jti claims'.exp (serve requests left) soon
        (rw one_id held_then) taken'

  -- The claims of a token do not depend on when and for whom it is verified.
  one_reading :
      (parts : List String) (audience audience' : String) (now now' : ℕ)
      (claims claims' : ServiceClaims)
      → IsToken crates trusted audience now parts claims
      → IsToken crates trusted audience' now' parts claims'
      → claims ≡ claims'
  one_reading parts audience audience' now now' claims claims' t t' =
      let heads = sym t.segments ∙ t'.segments in
      let seconds : t.second ≡ t'.second = cc in
      let payloads : some t.bytes ≡ some t'.bytes =
        sym t.payload ∙ ap crates.base64 seconds ∙ t'.payload in
      let bytes : t.bytes ≡ t'.bytes = cc in
      let readings : some claims ≡ some claims' =
        sym t.claims_read ∙ ap crates.read_claims bytes ∙ t'.claims_read in
      cc

  -- A token that was accepted is not accepted a second time, for whatever audience, if the requests
  -- between are served up to thirty seconds past its expiry and that time fits 64 bits.
  pub verify_service_token-once :
      (r again : Request) (requests : List Request) (entries : BTreeMap ℕ) (claims : ServiceClaims)
      (caller other : VerifiedCaller)
      → token_claims crates trusted r.audience r.now (split b'.' r.token) ≡ ok claims
      → (verify_service_token crates trusted r.audience r.now r.token entries).1 ≡ ok caller
      → claims.exp + token_clock_skew_sec < 2 ^ 64
      → All (λ (q : Request). q.now ≤ claims.exp + token_clock_skew_sec) requests
      → again.token ≡ r.token
      → let after = (verify_service_token crates trusted r.audience r.now r.token entries).0 in
        (verify_service_token crates trusted again.audience again.now again.token
          (serve requests after)).1
        ≢ ok other
  verify_service_token-once r again requests entries claims caller other read h fits between same
        accepted =
      let whole : add_u64 claims.exp token_clock_skew_sec ≡ claims.exp + token_clock_skew_sec =
        omega arith in
      let left = (verify_service_token crates trusted r.audience r.now r.token entries).0 in
      let (claims', (read', _, _, named'), _) =
        accepted_lem again (serve requests left) other accepted in
      let first =
        token_claims-IsToken crates trusted r.audience r.now (split b'.' r.token) claims read in
      let again_read = rw same at read' in
      let second =
        token_claims-IsToken crates trusted again.audience again.now (split b'.' r.token) claims'
          again_read in
      let one =
        one_reading (split b'.' r.token) r.audience again.audience r.now again.now claims claims'
          first second in
      let (found, (found_read, _, _, named), _) = accepted_lem r entries caller h in
      let is_found : found ≡ claims = ok_injective (sym found_read ∙ read) in
      let ids : other.jti ≡ caller.jti = cc in
      let alive : again.now ≤ claims'.exp = second.current.alive in
      let soon : again.now ≤ add_u64 claims.exp token_clock_skew_sec =
        rw (whole, one) (omega arith) in
      verify_service_token-replayed r again requests entries claims caller other read h
        (rw whole between) soon ids accepted
