-- ===== src/Gateway/Chunked/RoundTrip.antt =====
-- A body that is written in chunks, and its decoding.
use mathlib.Core.List.{append_assoc, append-nil}
use confidential_agent.Common.{
  take, drop, length-append, ℕ, zero, suc, ◌+◌, ◌≤◌, ◌<◌, Bool, true, false, not, ◌&&◌, some, List,
  [], ◌∷◌, ◌++◌, All, ◌≡◌, refl, sym, ap, ap₂, ◌∙◌, arith, ltb, nat_eqb, length, Bool-cases, inl,
  inr,
}
use confidential_agent.Common.Utf8.{from_utf8, decode_from}
use confidential_agent.Gateway.{Bytes}
use confidential_agent.Gateway.Chunked.{
  max_http_body_bytes, Decoding, decoded, find_crlf, chunk_size, trailers, trailer, chunk_data,
  sized, size_line, chunks, decode_chunked_body,
}

-- A chunk: the line of its size, with any extensions, and its data.
pub record Chunk : Type 0 where
  pub line : Bytes
  pub data_bytes : Bytes

-- No CR and LF stand together.
unfoldable pub is_line : Bytes → Bool
is_line [] = true
is_line (a ∷ []) = true
is_line (a ∷ b ∷ rest) = not (nat_eqb a 13 && nat_eqb b 10) && is_line (b ∷ rest)

-- The text of a line gives a size.
abbrev pub Gives : Bytes → ℕ → Type 0
Gives line size =
    (points : List ℕ) × (from_utf8 line ≡ some points) × (chunk_size points ≡ some size)

pub record IsChunk (c : Chunk) : Type 0 where
  pub one_line : is_line c.line ≡ true
  pub sized : Gives c.line (length c.data_bytes)
  pub filled : 0 < length c.data_bytes

pub record IsTrailer (line : Bytes) : Type 0 where
  pub one_line : is_line line ≡ true
  pub text : (points : List ℕ) × (from_utf8 line ≡ some points)
  pub filled : 0 < length line

unfoldable pub write_trailers : List Bytes → Bytes
write_trailers [] = 13 ∷ 10 ∷ []
write_trailers (line ∷ lines) = line ++ (13 ∷ 10 ∷ write_trailers lines)

unfoldable pub write_chunks : List Chunk → Bytes → Bytes
write_chunks [] rest = rest
write_chunks (c ∷ cs) rest =
    c.line ++ (13 ∷ 10 ∷ (c.data_bytes ++ (13 ∷ 10 ∷ write_chunks cs rest)))

-- A whole body: the chunks, the line of the last one, whose size is zero, and the trailers.
unfoldable pub write_body : List Chunk → Bytes → List Bytes → Bytes
write_body cs last lines = write_chunks cs (last ++ (13 ∷ 10 ∷ write_trailers lines))

unfoldable pub contents : List Chunk → Bytes
contents [] = []
contents (c ∷ cs) = c.data_bytes ++ contents cs

find_crlf-line :
    (line rest : Bytes)
    → is_line line ≡ true
    → find_crlf (line ++ (13 ∷ 10 ∷ rest)) ≡ some (line, rest)
unfolding find_crlf is_line
find_crlf-line [] rest h = refl
find_crlf-line (a ∷ []) rest h = elim (Bool-cases (nat_eqb a 13)) [
  | inl e ↦ rw e refl
  | inr e ↦ rw e refl
]
find_crlf-line (a ∷ b ∷ line) rest h = elim (Bool-cases (nat_eqb a 13 && nat_eqb b 10)) [
  | inl e ↦ absurd (cc (rw (e, is_line) at h))
  | inr e ↦ rw e (rw (find_crlf-line (b ∷ line) rest (rw (e, is_line) at h)) refl)
]

take-append : (xs ys : Bytes) → take (length xs) (xs ++ ys) ≡ xs
take-append [] ys = refl
take-append (x ∷ xs) ys = ap (x ∷◌) (take-append xs ys)

drop-append : (xs ys : Bytes) → drop (length xs) (xs ++ ys) ≡ ys
drop-append [] ys = refl
drop-append (x ∷ xs) ys = drop-append xs ys

suc_two : (n : ℕ) → suc n + 2 ≡ suc (n + 2)
suc_two n = omega arith

drop-append_two : (xs ys : Bytes) → drop (length xs + 2) (xs ++ (13 ∷ 10 ∷ ys)) ≡ ys
drop-append_two [] ys = refl
drop-append_two (x ∷ xs) ys =
    ap (λ (n : ℕ). drop n (x ∷ (xs ++ (13 ∷ 10 ∷ ys)))) (suc_two (length xs))
    ∙ drop-append_two xs ys

trailer-filled :
    (out line rest : Bytes) (points : List ℕ) (more : Decoding)
    → 0 < length line
    → trailer out line rest (some points) more ≡ more
trailer-filled out [] rest points more h = absurd (omega arith)
trailer-filled out (b ∷ line) rest points more h = refl

trailers-write_trailers :
    (fuel : ℕ) (out : Bytes) (lines : List Bytes)
    → All IsTrailer lines
    → length (write_trailers lines) < fuel
    → trailers fuel out (write_trailers lines) ≡ decoded out
unfolding trailers write_trailers find_crlf from_utf8 decode_from
trailers-write_trailers zero out lines h k = absurd (omega arith)
trailers-write_trailers (suc fuel) out [] h k = refl
trailers-write_trailers (suc fuel) out (line ∷ lines) (t, h) k =
    let (points, text) = t.text in
    let total = length-append line (13 ∷ 10 ∷ write_trailers lines) in
    rw (find_crlf-line line (write_trailers lines) t.one_line, trailers)
      (ap
          (λ p.
            trailer out line (write_trailers lines) p (trailers fuel out (write_trailers lines)))
          text
        ∙ trailer-filled out line (write_trailers lines) points _ t.filled
        ∙ trailers-write_trailers fuel out lines h (omega (arith, total)))

chunks-last :
    (fuel : ℕ) (out last : Bytes) (lines : List Bytes)
    → is_line last ≡ true
    → Gives last 0
    → All IsTrailer lines
    → length (last ++ (13 ∷ 10 ∷ write_trailers lines)) < suc fuel
    → chunks (suc fuel) out (last ++ (13 ∷ 10 ∷ write_trailers lines)) ≡ decoded out
unfolding chunks
chunks-last fuel out last lines l (points, text, size) h k =
    let total = length-append last (13 ∷ 10 ∷ write_trailers lines) in
    rw (find_crlf-line last (write_trailers lines) l, chunks)
      (ap (size_line (chunks fuel) fuel out (write_trailers lines)) text
        ∙ ap (sized (chunks fuel) fuel out (write_trailers lines)) size
        ∙ trailers-write_trailers fuel out lines h (omega (arith, total)))

-- The data of one chunk, then the rest.
chunk_data-append :
    (more : Bytes → Bytes → Decoding) (out bytes rest : Bytes)
    → length out + length bytes ≤ max_http_body_bytes
    → chunk_data more out (length bytes) (bytes ++ (13 ∷ 10 ∷ rest)) ≡ more (out ++ bytes) rest
unfolding chunk_data
chunk_data-append more out bytes rest fits =
    let total = length-append bytes (13 ∷ 10 ∷ rest) in
    let there : ltb (length (bytes ++ (13 ∷ 10 ∷ rest))) (length bytes + 2) ≡ false =
      ground (arith, total) in
    let small : ltb max_http_body_bytes (length out + length bytes) ≡ false = ground arith in
    rw there (
      rw (drop-append bytes (13 ∷ 10 ∷ rest)) (
        rw small (
          ap₂ more (ap (λ (bs : Bytes). out ++ bs) (take-append bytes (13 ∷ 10 ∷ rest)))
            (drop-append_two bytes rest))))

sized-filled :
    (more : Bytes → Bytes → Decoding) (fuel : ℕ) (out rest : Bytes) (size : ℕ)
    → 0 < size
    → sized more fuel out rest (some size) ≡ chunk_data more out size rest
sized-filled more fuel out rest zero h = absurd (omega arith)
sized-filled more fuel out rest (suc n) h = refl

chunks-write_chunks :
    (fuel : ℕ) (out : Bytes) (cs : List Chunk) (last : Bytes) (lines : List Bytes)
    → All IsChunk cs
    → length out + length (contents cs) ≤ max_http_body_bytes
    → is_line last ≡ true
    → Gives last 0
    → All IsTrailer lines
    → length (write_body cs last lines) < fuel
    → chunks fuel out (write_body cs last lines) ≡ decoded (out ++ contents cs)
unfolding write_body write_chunks contents chunks
chunks-write_chunks zero out cs last lines h fits l z t k = absurd (omega arith)
chunks-write_chunks (suc fuel) out [] last lines h fits l z t k =
    chunks-last fuel out last lines l z t k ∙ ap decoded (sym (append-nil out))
chunks-write_chunks (suc fuel) out (c ∷ cs) last lines (c_ok, h) fits l z t k =
    let (points, text, size) = c_ok.sized in
    let body = write_body cs last lines in
    let rest = c.data_bytes ++ (13 ∷ 10 ∷ body) in
    let whole = length-append c.line (13 ∷ 10 ∷ rest) in
    let part = length-append c.data_bytes (13 ∷ 10 ∷ body) in
    let sum = length-append c.data_bytes (contents cs) in
    let more = length-append out c.data_bytes in
    rw (find_crlf-line c.line rest c_ok.one_line, chunks)
      (ap (size_line (chunks fuel) fuel out rest) text
        ∙ ap (sized (chunks fuel) fuel out rest) size
        ∙ sized-filled (chunks fuel) fuel out rest (length c.data_bytes) c_ok.filled
        ∙ chunk_data-append (chunks fuel) out c.data_bytes body (omega (arith, sum, fits))
        ∙ chunks-write_chunks fuel (out ++ c.data_bytes) cs last lines h
            (omega (arith, sum, more, fits)) l z t (omega (arith, whole, part, k))
        ∙ ap decoded (append_assoc out c.data_bytes (contents cs)))

-- A body that is written in chunks is decoded to their data, one after the other, if no chunk is empty,
-- each size line gives its chunk's size and is on one line, the last line gives zero, the trailers are
-- lines that are not empty, and the data is not more than a body may have.
pub decode_chunked_body-write_body :
    (cs : List Chunk) (last : Bytes) (lines : List Bytes)
    → All IsChunk cs
    → length (contents cs) ≤ max_http_body_bytes
    → is_line last ≡ true
    → Gives last 0
    → All IsTrailer lines
    → decode_chunked_body (write_body cs last lines) ≡ decoded (contents cs)
unfolding decode_chunked_body
decode_chunked_body-write_body cs last lines h fits l z t =
    chunks-write_chunks (suc (length (write_body cs last lines))) [] cs last lines h (omega arith) l
      z t (omega arith)
