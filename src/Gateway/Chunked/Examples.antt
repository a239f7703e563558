-- ===== src/Gateway/Chunked/Examples.antt =====
-- A body of one chunk, with an extension on its size line and one trailer.
use confidential_agent.Common.{[], ◌∷◌, ◌≡◌, refl, arith, is_whitespace, is_digit}
use confidential_agent.Common.Utf8.{from_utf8, decode_from, step}
use confidential_agent.Gateway.{Bytes}
use confidential_agent.Gateway.Chunked.{
  decoded, chunk_size, before_semicolon, trim_points_start, trim_points_end, hex_value, hex_from,
  from_str_radix, decode_chunked_body,
}
use confidential_agent.Gateway.Chunked.Ending.{Ends, decode_chunked_body-Ends}
use confidential_agent.Gateway.Chunked.RoundTrip.{
  Chunk, IsChunk, IsTrailer, Gives, is_line, write_body, contents, decode_chunked_body-write_body,
}

-- "B;q" and eleven bytes.
abbrev hello : Chunk
hello = record {
  line = b'B' ∷ b';' ∷ b'q' ∷ [];
  data_bytes = 104 ∷ 101 ∷ 108 ∷ 108 ∷ 111 ∷ 32 ∷ 119 ∷ 111 ∷ 114 ∷ 108 ∷ 100 ∷ [];
}

hello-IsChunk : IsChunk hello
unfolding is_line from_utf8 decode_from step chunk_size before_semicolon trim_points_start
    trim_points_end hex_value hex_from from_str_radix is_whitespace is_digit
hello-IsChunk = record {
  one_line = refl;
  sized = (b'B' ∷ b';' ∷ b'q' ∷ [], refl, refl);
  filled = omega arith;
}

last-Gives : Gives (b'0' ∷ []) 0
unfolding from_utf8 decode_from step chunk_size before_semicolon trim_points_start trim_points_end
    hex_value hex_from from_str_radix is_whitespace is_digit
last-Gives = (b'0' ∷ [], refl, refl)

abbrev field_a : Bytes
field_a = b'a' ∷ []

field_a-IsTrailer : IsTrailer field_a
unfolding is_line from_utf8 decode_from step
field_a-IsTrailer = record { one_line = refl; text = (b'a' ∷ [], refl); filled = omega arith }

decode_chunked_body-write_body_example :
    decode_chunked_body (write_body (hello ∷ []) (b'0' ∷ []) ((b'a' ∷ []) ∷ []))
    ≡ decoded hello.data_bytes
unfolding contents is_line
decode_chunked_body-write_body_example =
    decode_chunked_body-write_body (hello ∷ []) (b'0' ∷ []) ((b'a' ∷ []) ∷ []) (hello-IsChunk, tt)
      (omega arith) refl last-Gives (field_a-IsTrailer, tt)

decode_chunked_body-Ends_example : Ends (decode_chunked_body (b'5' ∷ 13 ∷ 10 ∷ b'x' ∷ []))
decode_chunked_body-Ends_example = decode_chunked_body-Ends (b'5' ∷ 13 ∷ 10 ∷ b'x' ∷ [])
