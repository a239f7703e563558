-- ===== src/Gateway/Cache.antt =====
-- The cache of token ids: what it holds, and what it refuses.
use confidential_agent.Common.{
  ℕ, ◌≤◌, String, true, some, [], ◌∷◌, ◌≡◌, ◌≢◌, inl, inr, arith, string_eq, ok, Bool-cases,
}
use confidential_agent.Common.BTree.{BTreeMap, get, contains_key}
use confidential_agent.Common.BTree.Laws.{get-insert, contains_key-eq-false_iff}
use confidential_agent.Gateway.{token_clock_skew_sec, add_u64, retain, cache_insert}

-- The cache holds an entry for the id that lives at least to `until`.
abbrev pub IsHeld : ℕ → String → BTreeMap ℕ → Type 0
IsHeld until jti entries =
    (exp : ℕ) × (get jti entries ≡ some exp) × (until ≤ add_u64 exp token_clock_skew_sec)

get-retain :
    (now : ℕ) (jti : String) (exp : ℕ) (entries : BTreeMap ℕ)
    → now ≤ add_u64 exp token_clock_skew_sec
    → get jti entries ≡ some exp
    → get jti (retain now entries) ≡ some exp
unfolding get retain
get-retain now jti exp [] h e = e
get-retain now jti exp ((id, other) ∷ entries) h e = ground (arith, get-retain now jti exp entries)

retain-IsHeld :
    (until now : ℕ) (jti : String) (entries : BTreeMap ℕ)
    → now ≤ until
    → IsHeld until jti entries
    → IsHeld until jti (retain now entries)
retain-IsHeld until now jti entries h (exp, e, k) =
    (exp, get-retain now jti exp entries (omega arith) e, k)

contains_key-of_get :
    (jti : String) (exp : ℕ) (entries : BTreeMap ℕ)
    → get jti entries ≡ some exp
    → contains_key jti entries ≡ true
contains_key-of_get jti exp entries e = ground (arith, contains_key-eq-false_iff jti entries)

-- An id that is held to the time of the call is refused.
pub cache_insert-held :
    (until now : ℕ) (jti : String) (exp : ℕ) (entries : BTreeMap ℕ)
    → now ≤ until
    → IsHeld until jti entries
    → (cache_insert jti exp now entries).1 ≢ ok tt
unfolding cache_insert
cache_insert-held until now jti exp entries h held =
    let (kept, e, _) = retain-IsHeld until now jti entries h held in
    rw (contains_key-of_get jti kept (retain now entries) e) (λ q. cc)

-- A held id stays held, whatever id is asked for.
pub cache_insert-IsHeld :
    (until now : ℕ) (jti other : String) (exp : ℕ) (entries : BTreeMap ℕ)
    → now ≤ until
    → IsHeld until jti entries
    → IsHeld until jti (cache_insert other exp now entries).0
unfolding cache_insert
cache_insert-IsHeld until now jti other exp entries h held =
    let (kept, e, k) = retain-IsHeld until now jti entries h held in
    elim (Bool-cases (contains_key other (retain now entries))) [
      | inl known ↦ rw known (kept, e, k)
      | inr fresh ↦ rw fresh (
        kept,
        ground (
          arith,
          get-insert other jti exp (retain now entries),
          e,
          contains_key-eq-false_iff other (retain now entries),
          string_eq.beq_iff other jti,
        ),
        k,
      )
    ]

-- An id that is taken in is held with its token's expiry.
pub cache_insert-taken :
    (jti : String) (exp now : ℕ) (entries : BTreeMap ℕ)
    → (cache_insert jti exp now entries).1 ≡ ok tt
    → IsHeld (add_u64 exp token_clock_skew_sec) jti (cache_insert jti exp now entries).0
unfolding cache_insert
cache_insert-taken jti exp now entries h =
    elim (Bool-cases (contains_key jti (retain now entries))) [
      | inl known ↦ let refused = rw known at h in cc
      | inr fresh ↦ rw fresh (
        exp,
        ground (arith, get-insert jti jti exp (retain now entries), string_eq.beq_iff jti jti),
        omega arith,
      )
    ]
