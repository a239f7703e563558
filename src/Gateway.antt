-- ===== src/Gateway.antt =====
-- gateway/src/lib.rs: the verification of service tokens and the cache that refuses a second use of
-- one. The clock is an argument; base64, JSON and the signature scheme are parameters.
pub mod Accepted
pub mod Cache
pub mod Config
pub mod Canonical
pub mod Audit
pub mod Chunked
pub mod Tools
pub mod Mcp
pub mod Replay
mod Examples
use Prim.Native.String
use confidential_agent.Common.{
  ℕ, ◌+◌, ◌%◌, ◌^◌, String, Bool, true, false, not, ◌||◌, Option, none, some, List, [], ◌∷◌, ltb,
  leb, length, ◌==◌, nat_eq, string_eq, if◌then◌else◌, Field, Problem, Error, Result, ok, err, bad,
  ◌>>=◌, ◌>>◌, bail_if, ensure, context,
}
use confidential_agent.Common.Text.{split}
use confidential_agent.Common.BTree.{BTreeMap, insert, get, contains_key}

pub record TokenHeader : Type 0 where
  pub alg : String
  pub typ : String

pub record ServiceClaims : Type 0 where
  pub iss : String
  pub sub : String
  pub aud : String
  pub iat : ℕ
  pub exp : ℕ
  pub jti : String
  pub mesh_generation : ℕ

pub record VerifiedCaller : Type 0 where
  pub service_id : String
  pub jti : String

pub record GatewayTrustedService : Type 0 where
  pub public_key : String

abbrev pub token_clock_skew_sec : ℕ
token_clock_skew_sec = 30

-- The sum of two `u64`; a release build wraps around.
abbrev pub add_u64 : ℕ → ℕ → ℕ
add_u64 a b = (a + b) % 2 ^ 64

-- `entries.retain(|_, entry_exp| …)`
unfoldable pub retain : ℕ → BTreeMap ℕ → BTreeMap ℕ
retain now [] = []
retain now ((jti, exp) ∷ entries) =
    if leb now (add_u64 exp token_clock_skew_sec)
    then (jti, exp) ∷ retain now entries
    else retain now entries

abbrev pub jti_field : Field
jti_field = Field.name "jti"

-- `ReplayCache::insert` gives the entries after it too: what expired goes, also where it refuses.
unfoldable pub cache_insert : String → ℕ → ℕ → BTreeMap ℕ → BTreeMap ℕ × Result (Unit {0})
cache_insert jti exp now entries =
    let live = retain now entries in
    if contains_key jti live
    then (live, err (bad jti_field Problem.duplicate))
    else (insert jti exp live, ok tt)

-- Bytes, and what the crates answer: the base64 decoder, the two JSON readers, the reader of a public
-- key and of a signature, and the check of a signature on a message.
abbrev pub Bytes : Type 0
Bytes = List ℕ

pub record Crates : Type 1 where
  pub VerifyingKey : Type 0
  pub Signature : Type 0
  pub base64 : String → Option Bytes
  pub read_header : Bytes → Option TokenHeader
  pub read_claims : Bytes → Option ServiceClaims
  pub key_of : Bytes → Option VerifyingKey
  pub signature_of : Bytes → Option Signature
  pub verify : VerifyingKey → String → Signature → Bool

module _ (crates : Crates) where
  unfoldable pub decode_key32 : String → Result Bytes
  decode_key32 value = do
    bytes ← context (crates.base64 value) (Field.name "public_key") Problem.syntax
    ensure (length bytes == 32) (Field.name "public_key") Problem.too_long
    ok bytes

  -- The checks on the claims that the token carries.
  unfoldable pub check_claims : String → ℕ → ServiceClaims → Result (Unit {0})
  check_claims expected_aud now claims = do
    bail_if (not (claims.aud == expected_aud)) (Field.name "aud") Problem.conflict
    bail_if (ltb claims.exp now) (Field.name "exp") Problem.too_small
    bail_if (ltb (add_u64 now token_clock_skew_sec) claims.iat) (Field.name "iat") Problem.too_large

  -- The checks on the signature, by the issuer's key.
  unfoldable pub check_signature :
      BTreeMap GatewayTrustedService → String → String → ServiceClaims → Result (Unit {0})
  check_signature trusted message segment claims = do
    service ← context (get claims.iss trusted) (Field.name "iss") Problem.unlisted
    public_key ← decode_key32 service.public_key
    key ← context (crates.key_of public_key) (Field.name "public_key") Problem.syntax
    bytes ← context (crates.base64 segment) (Field.name "signature") Problem.syntax
    signature ← context (crates.signature_of bytes) (Field.name "signature") Problem.syntax
    ensure (crates.verify key message signature) (Field.name "signature") Problem.conflict

  -- The claims of a token whose three segments pass all checks but that of the cache.
  unfoldable pub token_claims :
      BTreeMap GatewayTrustedService → String → ℕ → List String → Result ServiceClaims
  token_claims trusted expected_aud now (first ∷ second ∷ third ∷ []) = do
    header_bytes ← context (crates.base64 first) (Field.name "header") Problem.syntax
    header ← context (crates.read_header header_bytes) (Field.name "header") Problem.syntax
    bail_if (not (header.alg == "EdDSA") || not (header.typ == "JWT")) (Field.name "header")
        Problem.unsupported
    claims_bytes ← context (crates.base64 second) (Field.name "claims") Problem.syntax
    claims ← context (crates.read_claims claims_bytes) (Field.name "claims") Problem.syntax
    check_claims expected_aud now claims
    check_signature trusted (String.◌++◌ first (String.◌++◌ "." second)) third claims
    ok claims
  token_claims trusted expected_aud now _ = err (bad (Field.name "token") Problem.syntax)

  -- `replay_cache.insert(…)?` and the caller.
  unfoldable pub admit : Result ServiceClaims → ℕ → BTreeMap ℕ → BTreeMap ℕ × Result VerifiedCaller
  admit (err e) now entries = (entries, err e)
  admit (ok claims) now entries =
      let (entries', answer) = cache_insert claims.jti claims.exp now entries in
      (entries', answer >> ok (record { service_id = claims.iss; jti = claims.jti }))

  unfoldable pub verify_service_token :
      BTreeMap GatewayTrustedService
      → String
      → ℕ
      → String
      → BTreeMap ℕ
      → BTreeMap ℕ × Result VerifiedCaller
  verify_service_token trusted expected_aud now token entries =
      admit (token_claims trusted expected_aud now (split b'.' token)) now entries
