-- ===== src/Gateway/Accepted.antt =====
-- What a token that is accepted was checked for.
use confidential_agent.Common.{
  ℕ, ◌≤◌, String, true, not, ◌||◌, some, List, [], ◌∷◌, ◌≡◌, refl, arith, length, nat_eq, ◌==◌,
  string_eq, ok, Field, Problem, bail_if, ensure, context-bind, bind-eq-ok, seq-eq-ok_iff,
  ok_injective, ensure-eq-ok_iff,
}
use Prim.Native.String
use confidential_agent.Common.BTree.{BTreeMap, get}
use confidential_agent.Gateway.{
  Crates, Bytes, TokenHeader, ServiceClaims, GatewayTrustedService, token_clock_skew_sec, add_u64,
  decode_key32, check_claims, check_signature, token_claims,
}

-- The claims are for this audience, not expired, and not from the future by more than the skew.
pub record AreCurrent (audience : String) (now : ℕ) (claims : ServiceClaims) : Type 0 where
  pub addressed : claims.aud ≡ audience
  pub alive : now ≤ claims.exp
  pub begun : claims.iat ≤ add_u64 now token_clock_skew_sec

check_claims-AreCurrent :
    (crates : Crates) (audience : String) (now : ℕ) (claims : ServiceClaims)
    → check_claims crates audience now claims ≡ ok tt
    → AreCurrent audience now claims
unfolding check_claims
check_claims-AreCurrent crates audience now claims h = record {
  addressed = ground (arith, string_eq.beq_iff claims.aud audience);
  alive = ground arith;
  begun = ground arith;
}

module _ (crates : Crates) (trusted : BTreeMap GatewayTrustedService) where
  -- The issuer is trusted, and its key verifies the signature in the segment on the message.
  pub record IsSigned (message segment : String) (claims : ServiceClaims) : Type 0 where
    pub service : GatewayTrustedService
    pub public_key : Bytes
    pub key : crates.VerifyingKey
    pub signature_bytes : Bytes
    pub signature : crates.Signature
    pub known : get claims.iss trusted ≡ some service
    pub decoded : crates.base64 service.public_key ≡ some public_key
    pub sized : length public_key ≡ 32
    pub read : crates.key_of public_key ≡ some key
    pub carried : crates.base64 segment ≡ some signature_bytes
    pub signature_read : crates.signature_of signature_bytes ≡ some signature
    pub signs : crates.verify key message signature ≡ true

  check_signature-IsSigned :
      (message segment : String) (claims : ServiceClaims)
      → check_signature crates trusted message segment claims ≡ ok tt
      → IsSigned message segment claims
  unfolding check_signature decode_key32
  check_signature-IsSigned message segment claims h =
      let (service, known, h₁) = context-bind (get claims.iss trusted) _ _ _ h in
      let (public_key, decoded, h₂) = bind-eq-ok (decode_key32 crates service.public_key) _ h₁ in
      let (bytes', based, h₃) = context-bind (crates.base64 service.public_key) _ _ _ decoded in
      let (sized, same) =
        (seq-eq-ok_iff (ensure (length bytes' == 32) (Field.name "public_key") Problem.too_long)
            (ok bytes')).0
          h₃ in
      let is_key = ok_injective same in
      let (key, read, h₄) = context-bind (crates.key_of public_key) _ _ _ h₂ in
      let (bytes, carried, h₅) = context-bind (crates.base64 segment) _ _ _ h₄ in
      let (signature, signature_read, h₆) = context-bind (crates.signature_of bytes) _ _ _ h₅ in
      record {
        service = service;
        public_key = public_key;
        key = key;
        signature_bytes = bytes;
        signature = signature;
        known = known;
        decoded = rw (← is_key) based;
        sized = rw (← is_key) (ground arith);
        read = read;
        carried = carried;
        signature_read = signature_read;
        signs = (ensure-eq-ok_iff (crates.verify key message signature) _ _).0 h₆;
      }

  -- A token in three segments with a known header, whose claims are current and signed by the issuer.
  pub record IsToken (audience : String) (now : ℕ) (parts : List String) (claims : ServiceClaims)
      : Type 0 where
    pub first : String
    pub second : String
    pub third : String
    pub header_bytes : Bytes
    pub header : TokenHeader
    pub bytes : Bytes
    pub segments : parts ≡ first ∷ second ∷ third ∷ []
    pub based : crates.base64 first ≡ some header_bytes
    pub header_read : crates.read_header header_bytes ≡ some header
    pub alg : header.alg ≡ "EdDSA"
    pub typ : header.typ ≡ "JWT"
    pub payload : crates.base64 second ≡ some bytes
    pub claims_read : crates.read_claims bytes ≡ some claims
    pub current : AreCurrent audience now claims
    pub signed : IsSigned (String.◌++◌ first (String.◌++◌ "." second)) third claims

  -- Claims are taken from a token only if it is in three segments with an EdDSA JWT header, the claims
  -- are for the audience, not expired and begun within the skew, and a trusted issuer's key of 32 bytes
  -- verifies the signature that the third segment holds on the first two.
  pub token_claims-IsToken :
      (audience : String) (now : ℕ) (parts : List String) (claims : ServiceClaims)
      → token_claims crates trusted audience now parts ≡ ok claims
      → IsToken audience now parts claims
  unfolding token_claims
  token_claims-IsToken audience now [] claims h = cc
  token_claims-IsToken audience now (a ∷ []) claims h = cc
  token_claims-IsToken audience now (a ∷ b ∷ []) claims h = cc
  token_claims-IsToken audience now (a ∷ b ∷ c ∷ d ∷ rest) claims h = cc
  token_claims-IsToken audience now (first ∷ second ∷ third ∷ []) claims h =
      let (header_bytes, based, h₁) = context-bind (crates.base64 first) _ _ _ h in
      let (header, header_read, h₂) = context-bind (crates.read_header header_bytes) _ _ _ h₁ in
      let (plain, h₃) =
        (seq-eq-ok_iff
            (bail_if (not (header.alg == "EdDSA") || not (header.typ == "JWT"))
              (Field.name "header") Problem.unsupported)
            _).0
          h₂ in
      let (bytes, payload, h₄) = context-bind (crates.base64 second) _ _ _ h₃ in
      let (read, claims_read, h₅) = context-bind (crates.read_claims bytes) _ _ _ h₄ in
      let (current, h₆) = (seq-eq-ok_iff (check_claims crates audience now read) _).0 h₅ in
      let (signed, same) =
        (seq-eq-ok_iff
            (check_signature crates trusted (String.◌++◌ first (String.◌++◌ "." second)) third read)
            (ok read)).0
          h₆ in
      let is_read = ok_injective same in
      record {
        first = first;
        second = second;
        third = third;
        header_bytes = header_bytes;
        header = header;
        bytes = bytes;
        segments = refl;
        based = based;
        header_read = header_read;
        alg = ground (arith, string_eq.beq_iff header.alg "EdDSA", plain);
        typ = ground (arith, string_eq.beq_iff header.typ "JWT", plain);
        payload = payload;
        claims_read = rw (← is_read) claims_read;
        current = rw (← is_read) (check_claims-AreCurrent crates audience now read current);
        signed = rw (← is_read) (
            check_signature-IsSigned (String.◌++◌ first (String.◌++◌ "." second)) third read
              signed);
      }
