-- ===== src/Gateway/Chunked/Ending.antt =====
-- How the decoding of a chunked body ends.
use confidential_agent.Common.{
  take, drop, length-append, ℕ, zero, suc, ◌+◌, ◌≤◌, ◌<◌, ◌&&◌, nat_eqb, Option, none, some, List,
  [], ◌∷◌, ◌++◌, ◌≡◌, sym, arith, ltb, length, Bool-cases, Option-cases, inl, inr,
}
use confidential_agent.Common.Utf8.{from_utf8}
use confidential_agent.Gateway.{Bytes}
use confidential_agent.Gateway.Chunked.{
  max_http_body_bytes, ChunkError, Decoding, decoded, rejected, find_crlf, chunk_size,
  starts_with_crlf, trailers, trailer, chunk_data, sized, size_line, chunks, decode_chunked_body,
}

-- The decoding has ended, with at most as many bytes as a body may have.
pub data Ends : Decoding → Type 0 where
  with_body : {out : Bytes} → length out ≤ max_http_body_bytes → Ends (decoded out)
  with_error : {e : ChunkError} → Ends (rejected e)

rest-eq :
    {line line' rest rest' : Bytes}
    → ◌≡◌ {A = Option (Bytes × Bytes)} (some (line, rest)) (some (line', rest'))
    → rest ≡ rest'
rest-eq h = cc

-- A line and its end are taken off the rest.
find_crlf-shorter :
    (bytes line rest : Bytes) → find_crlf bytes ≡ some (line, rest) → length rest < length bytes
unfolding find_crlf
find_crlf-shorter [] line rest h = cc
find_crlf-shorter (a ∷ []) line rest h = cc
find_crlf-shorter (a ∷ b ∷ bytes) line rest h = elim (Bool-cases (nat_eqb a 13 && nat_eqb b 10)) [
  | inl e ↦ rw (sym (rest-eq (rw (e, find_crlf) at h))) (omega arith)
  | inr e ↦ elim (Option-cases (find_crlf (b ∷ bytes))) [
    | inl f ↦ absurd (cc (rw (e, f, find_crlf) at h))
    | inr ((line', rest'), f) ↦
        let shorter = find_crlf-shorter (b ∷ bytes) line' rest' f in
        rw (sym (rest-eq (rw (e, f, find_crlf) at h))) (omega (arith, shorter))
  ]
]

trailer-Ends :
    (out line rest : Bytes) (points : Option (List ℕ)) (more : Decoding)
    → length out ≤ max_http_body_bytes
    → Ends more
    → Ends (trailer out line rest points more)
trailer-Ends out line rest none more fits h = with_error
trailer-Ends out [] [] (some points) more fits h = with_body fits
trailer-Ends out [] (b ∷ rest) (some points) more fits h = with_error
trailer-Ends out (b ∷ line) rest (some points) more fits h = h

trailers-Ends :
    (fuel : ℕ) (out rest : Bytes)
    → length out ≤ max_http_body_bytes
    → length rest < fuel
    → Ends (trailers fuel out rest)
unfolding trailers
trailers-Ends zero out rest fits h = absurd (omega arith)
trailers-Ends (suc fuel) out rest fits h = elim (Option-cases (find_crlf rest)) [
  | inl e ↦ rw (e, trailers) with_error
  | inr ((line, after), e) ↦
      let shorter = find_crlf-shorter rest line after e in
      rw (e, trailers)
        (trailer-Ends out line after (from_utf8 line) (trailers fuel out after) fits
          (trailers-Ends fuel out after fits (omega (arith, shorter))))
]

length-take_le : (n : ℕ) (xs : Bytes) → length (take n xs) ≤ n
length-take_le zero xs = omega arith
length-take_le (suc n) [] = omega arith
length-take_le (suc n) (x ∷ xs) = omega (arith, length-take_le n xs)

length-drop_le : (n : ℕ) (xs : Bytes) → length (drop n xs) ≤ length xs
length-drop_le zero xs = omega arith
length-drop_le (suc n) [] = omega arith
length-drop_le (suc n) (x ∷ xs) = omega (arith, length-drop_le n xs)

-- The next round ends, on what is left.
abbrev Continues : (Bytes → Bytes → Decoding) → Bytes → Type 0
Continues more rest =
    (out' rest' : Bytes)
    → length out' ≤ max_http_body_bytes
    → length rest' ≤ length rest
    → Ends (more out' rest')

chunk_data-Ends :
    (more : Bytes → Bytes → Decoding) (out : Bytes) (size : ℕ) (rest : Bytes)
    → Continues more rest
    → Ends (chunk_data more out size rest)
unfolding chunk_data
chunk_data-Ends more out size rest h = elim (Bool-cases (ltb (length rest) (size + 2))) [
  | inl e ↦ rw e with_error
  | inr e ↦ elim (Bool-cases (starts_with_crlf (drop size rest))) [
    | inr f ↦ rw e (rw f with_error)
    | inl f ↦ elim (Bool-cases (ltb max_http_body_bytes (length out + size))) [
      | inl g ↦ rw e (rw f (rw g with_error))
      | inr g ↦
          let fits : length out + size ≤ max_http_body_bytes = ground arith in
          let sum = length-append out (take size rest) in
          rw e (
            rw f (
              rw g (
                h (out ++ take size rest) (drop (size + 2) rest)
                  (omega (arith, sum, length-take_le size rest, fits))
                  (length-drop_le (size + 2) rest))))
    ]
  ]
]

size_line-Ends :
    (more : Bytes → Bytes → Decoding) (fuel : ℕ) (out rest : Bytes) (points : Option (List ℕ))
    → length out ≤ max_http_body_bytes
    → length rest < fuel
    → Continues more rest
    → Ends (size_line more fuel out rest points)
size_line-Ends more fuel out rest none fits h k = with_error
size_line-Ends more fuel out rest (some points) fits h k = sized-Ends (chunk_size points)
  where
    sized-Ends : (size : Option ℕ) → Ends (sized more fuel out rest size)
    sized-Ends none = with_error
    sized-Ends (some zero) = trailers-Ends fuel out rest fits h
    sized-Ends (some (suc n)) = chunk_data-Ends more out (suc n) rest k

chunks-Ends :
    (fuel : ℕ) (out rest : Bytes)
    → length out ≤ max_http_body_bytes
    → length rest < fuel
    → Ends (chunks fuel out rest)
unfolding chunks
chunks-Ends zero out rest fits h = absurd (omega arith)
chunks-Ends (suc fuel) out rest fits h = elim (Option-cases (find_crlf rest)) [
  | inl e ↦ rw (e, chunks) with_error
  | inr ((line, after), e) ↦
      let shorter = find_crlf-shorter rest line after e in
      rw (e, chunks)
        (size_line-Ends (chunks fuel) fuel out after (from_utf8 line) fits (omega (arith, shorter))
          (λ out' rest' fits' h'. chunks-Ends fuel out' rest' fits' (omega (arith, shorter, h'))))
]

-- The decoding of any body comes to an end: it is refused with an error, or it gives at most as many
-- bytes as a body may have.
pub decode_chunked_body-Ends : (body : Bytes) → Ends (decode_chunked_body body)
unfolding decode_chunked_body
decode_chunked_body-Ends body = chunks-Ends (suc (length body)) [] body (omega arith) (omega arith)
