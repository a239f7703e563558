-- ===== src/Gateway/Chunked.antt =====
-- gateway/src/lib.rs: `decode_chunked_body`, on the bytes that are left of the body. Each round takes
-- bytes off, so the body's length is fuel enough. A size that makes the position overflow is past the
-- end too, and both are `ended_early`.
pub mod Ending
pub mod RoundTrip
mod Examples
use confidential_agent.Common.{
  take, drop, ℕ, zero, suc, ◌+◌, ◌-◌, ◌*◌, ◌^◌, Bool, true, false, not, ◌&&◌, ◌||◌, Option, none,
  some, List, [], ◌∷◌, ◌++◌, if◌then◌else◌, leb, ltb, nat_eqb, length, is_whitespace, is_digit,
}
use confidential_agent.Common.Utf8.{from_utf8}
use confidential_agent.Gateway.{Bytes}

abbrev pub max_http_body_bytes : ℕ
max_http_body_bytes = 16 * 1024 * 1024

pub data ChunkError : Type 0 where
  no_size_end size_not_utf8 bad_size : ChunkError
  no_trailer_end trailer_not_utf8 trailing_data : ChunkError
  ended_early no_chunk_end too_large : ChunkError

pub data Decoding : Type 0 where
  decoded : Bytes → Decoding
  rejected : ChunkError → Decoding
  unfinished : Decoding

abbrev pub onto_line : ℕ → Option (Bytes × Bytes) → Option (Bytes × Bytes)
onto_line b none = none
onto_line b (some (line, rest)) = some (b ∷ line, rest)

-- The line before the first CR and LF, and what follows them.
unfoldable pub find_crlf : Bytes → Option (Bytes × Bytes)
find_crlf [] = none
find_crlf (a ∷ []) = none
find_crlf (a ∷ b ∷ rest) =
    let later = onto_line a (find_crlf (b ∷ rest)) in
    if nat_eqb a 13 && nat_eqb b 10 then some ([], rest) else later

-- `split_once(';')`, the part before.
unfoldable pub before_semicolon : List ℕ → List ℕ
before_semicolon [] = []
before_semicolon (c ∷ s) = let rest = c ∷ before_semicolon s in if nat_eqb c b';' then [] else rest

unfoldable pub trim_points_start : List ℕ → List ℕ
trim_points_start [] = []
trim_points_start (c ∷ s) =
    let rest = trim_points_start s in if is_whitespace c then rest else c ∷ s

abbrev keep_point : ℕ → List ℕ → List ℕ
keep_point c [] = if is_whitespace c then [] else c ∷ []
keep_point c (d ∷ s) = c ∷ d ∷ s

unfoldable pub trim_points_end : List ℕ → List ℕ
trim_points_end [] = []
trim_points_end (c ∷ s) = keep_point c (trim_points_end s)

-- `char::to_digit(16)`
unfoldable pub hex_value : ℕ → Option ℕ
hex_value c =
    if is_digit c
    then some (c - b'0')
    else if leb b'a' c && leb c b'f'
    then some (c - b'a' + 10)
    else if leb b'A' c && leb c b'F'
    then some (c - b'A' + 10)
    else none

abbrev fit_usize : ℕ → Option ℕ
fit_usize n = if ltb n (2 ^ 64) then some n else none

abbrev next_digit : Option ℕ → Option ℕ → Option ℕ
next_digit none d = none
next_digit (some n) none = none
next_digit (some n) (some d) = fit_usize (n * 16 + d)

unfoldable pub hex_from : Option ℕ → List ℕ → Option ℕ
hex_from n [] = n
hex_from n (c ∷ s) = hex_from (next_digit n (hex_value c)) s

abbrev hex_number : List ℕ → Option ℕ
hex_number [] = none
hex_number (c ∷ s) = hex_from (some 0) (c ∷ s)

-- `usize::from_str_radix(s, 16)`, which passes over one "+".
unfoldable pub from_str_radix : List ℕ → Option ℕ
from_str_radix [] = none
from_str_radix (c ∷ s) = if nat_eqb c b'+' then hex_number s else hex_number (c ∷ s)

-- The size on a chunk's first line.
unfoldable pub chunk_size : List ℕ → Option ℕ
chunk_size line = from_str_radix (trim_points_end (trim_points_start (before_semicolon line)))

abbrev pub starts_with_crlf : Bytes → Bool
starts_with_crlf (a ∷ b ∷ rest) = nat_eqb a 13 && nat_eqb b 10
starts_with_crlf _ = false

-- What follows the last trailer.
abbrev pub after_trailers : Bytes → Bytes → Decoding
after_trailers out [] = decoded out
after_trailers out (b ∷ rest) = rejected trailing_data

-- One trailer that is UTF-8; an empty one is the last.
abbrev pub trailer : Bytes → Bytes → Bytes → Option (List ℕ) → Decoding → Decoding
trailer out line rest none more = rejected trailer_not_utf8
trailer out [] rest (some points) more = after_trailers out rest
trailer out (b ∷ line) rest (some points) more = more

-- The inner loop, over the trailers.
unfoldable pub trailers : ℕ → Bytes → Bytes → Decoding
trailers zero out rest = unfinished
trailers (suc fuel) out rest = elim (find_crlf rest) [
  | none ↦ rejected no_trailer_end
  | some (line, after) ↦ trailer out line after (from_utf8 line) (trailers fuel out after)
]

-- The data of a chunk; `more` is the next round.
unfoldable pub chunk_data : (Bytes → Bytes → Decoding) → Bytes → ℕ → Bytes → Decoding
chunk_data more out size rest =
    if ltb (length rest) (size + 2)
    then rejected ended_early
    else if not (starts_with_crlf (drop size rest))
    then rejected no_chunk_end
    else if ltb max_http_body_bytes (length out + size)
    then rejected too_large
    else more (out ++ take size rest) (drop (size + 2) rest)

-- What follows a line that gives a size.
abbrev pub sized : (Bytes → Bytes → Decoding) → ℕ → Bytes → Bytes → Option ℕ → Decoding
sized more fuel out rest none = rejected bad_size
sized more fuel out rest (some zero) = trailers fuel out rest
sized more fuel out rest (some (suc n)) = chunk_data more out (suc n) rest

abbrev pub size_line : (Bytes → Bytes → Decoding) → ℕ → Bytes → Bytes → Option (List ℕ) → Decoding
size_line more fuel out rest none = rejected size_not_utf8
size_line more fuel out rest (some points) = sized more fuel out rest (chunk_size points)

unfoldable pub chunks : ℕ → Bytes → Bytes → Decoding
chunks zero out rest = unfinished
chunks (suc fuel) out rest = elim (find_crlf rest) [
  | none ↦ rejected no_size_end
  | some (line, after) ↦ size_line (chunks fuel) fuel out after (from_utf8 line)
]

unfoldable pub decode_chunked_body : Bytes → Decoding
decode_chunked_body body = chunks (suc (length body)) [] body
