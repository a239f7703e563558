-- ===== src/Common/Utf8.antt =====
-- `str::from_utf8`: the code points of a list of bytes, if it is valid UTF-8.
use Prim.Native.Nat.{ℕ, zero, suc, ◌+◌, ◌-◌, ◌*◌}
use mathlib.Core.Bool.{◌&&◌}
use mathlib.Core.Option.{Option, none, some}
use mathlib.Core.List.{List, [], ◌∷◌}
use confidential_agent.Common.Tests.{leb, ltb, nat_eqb, if◌then◌else◌}

-- What a byte may begin or go on with: `left` more bytes, the next one from `low` to `high`.
pub data Pending : Type 0 where
  ready invalid : Pending
  awaits : (left value low high : ℕ) → Pending

-- The first byte of a character that has more than one.
unfoldable pub lead : ℕ → Pending
lead b =
    if leb 0xc2 b && leb b 0xdf
    then awaits 1 (b - 0xc0) 0x80 0xbf
    else if nat_eqb b 0xe0
    then awaits 2 0 0xa0 0xbf
    else if nat_eqb b 0xed
    then awaits 2 13 0x80 0x9f
    else if leb 0xe1 b && leb b 0xef
    then awaits 2 (b - 0xe0) 0x80 0xbf
    else if nat_eqb b 0xf0
    then awaits 3 0 0x90 0xbf
    else if leb 0xf1 b && leb b 0xf3
    then awaits 3 (b - 0xf0) 0x80 0xbf
    else if nat_eqb b 0xf4
    then awaits 3 4 0x80 0x8f
    else invalid

-- The character that a byte completes, if it does, and what may come after it.
unfoldable pub step : Pending → ℕ → Option ℕ × Pending
step invalid b = (none, invalid)
step ready b = if ltb b 128 then (some b, ready) else (none, lead b)
step (awaits zero value low high) b = (none, invalid)
step (awaits (suc zero) value low high) b =
    if leb low b && leb b high then (some (value * 64 + (b - 0x80)), ready) else (none, invalid)
step (awaits (suc (suc left)) value low high) b =
    if leb low b && leb b high
    then (none, awaits (suc left) (value * 64 + (b - 0x80)) 0x80 0xbf)
    else (none, invalid)

abbrev onto : Option ℕ → Option (List ℕ) → Option (List ℕ)
onto none points = points
onto (some c) none = none
onto (some c) (some points) = some (c ∷ points)

unfoldable pub decode_from : Pending → List ℕ → Option (List ℕ)
decode_from ready [] = some []
decode_from (awaits left value low high) [] = none
decode_from invalid [] = none
decode_from p (b ∷ bytes) = let (c, q) = step p b in onto c (decode_from q bytes)

unfoldable pub from_utf8 : List ℕ → Option (List ℕ)
from_utf8 bytes = decode_from ready bytes
