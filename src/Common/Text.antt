-- ===== src/Common/Text.antt =====
-- The methods of `str` that the program calls, over the native texts; `code` is a character's
-- code point, and `len` counts bytes of UTF-8.
pub mod Laws
use Prim.Native.Nat.{ℕ, zero, suc, ◌+◌, ◌-◌, ◌*◌, ◌/◌, ◌%◌}
use Prim.Native.Char.{Char, code}
use Prim.Native.String.{String, [], ◌∷◌, ◌++◌, len}
use mathlib.Core.Bool.{Bool, true, false, not, ◌&&◌, ◌||◌}
use mathlib.Core.Option
use mathlib.Core.Option.{Option, none, some}
use mathlib.Core.List.{List}
use confidential_agent.Common.Tests.{leb, ltb, nat_eqb, if◌then◌else◌, ◌==◌, string_eq}
use confidential_agent.Common.Chars.{is_whitespace, is_digit, to_lower}

abbrev pub is_some : Option String → Bool
is_some none = false
is_some (some a) = true

abbrev pub empty_text : String
empty_text = []

-- `s.len()`
abbrev pub byte_len : String → ℕ
byte_len s = len s

unfoldable pub is_empty : String → Bool
is_empty [] = true
is_empty (c ∷ s) = false

-- `s.chars().all(p)` and `s.chars().any(p)`; over ASCII predicates also `s.bytes()`.
unfoldable pub all_chars : (ℕ → Bool) → String → Bool
all_chars p [] = true
all_chars p (c ∷ s) = p (code c) && all_chars p s

unfoldable pub any_char : (ℕ → Bool) → String → Bool
any_char p [] = false
any_char p (c ∷ s) = p (code c) || any_char p s

unfoldable pub trim_start : String → String
unfolding is_whitespace
trim_start [] = []
trim_start (c ∷ s) = if is_whitespace (code c) then trim_start s else c ∷ s

-- Puts a character before a text whose end is trimmed.
unfoldable pub keep : (ℕ → Bool) → Char → String → String
keep p c [] = if p (code c) then [] else c ∷ []
keep p c (d ∷ s) = c ∷ d ∷ s

-- `s.trim_end_matches(p)`
unfoldable pub trim_end_matches : (ℕ → Bool) → String → String
unfolding keep
trim_end_matches p [] = []
trim_end_matches p (c ∷ s) = keep p c (trim_end_matches p s)

unfoldable pub trim : String → String
unfolding trim_start trim_end_matches
trim s = trim_end_matches is_whitespace (trim_start s)

abbrev pub first : Char → String × String → String × String
first c (s, t) = (c ∷ s, t)

-- `s.split_once(c)`, at the first such character.
unfoldable pub split_once : ℕ → String → Option (String × String)
split_once k [] = none
split_once k (c ∷ s) =
    let rest = Option.map (first c) (split_once k s) in
    if nat_eqb (code c) k then some ([], s) else rest

-- `s.rsplit_once(c)`, at the last such character.
unfoldable pub rsplit_once : ℕ → String → Option (String × String)
rsplit_once k [] = none
rsplit_once k (c ∷ s) = elim (rsplit_once k s) [
  | some (a, b) ↦ some (c ∷ a, b)
  | none ↦ if nat_eqb (code c) k then some ([], s) else none
]

-- Puts a character before the first of some parts.
abbrev pub onto_first : Char → List String → List String
onto_first c List.[] = List.◌∷◌ (c ∷ []) List.[]
onto_first c (List.◌∷◌ s parts) = List.◌∷◌ (c ∷ s) parts

-- `s.split(c)`: never empty.
unfoldable pub split : ℕ → String → List String
split k [] = List.◌∷◌ [] List.[]
split k (c ∷ s) =
    let parts = split k s in if nat_eqb (code c) k then List.◌∷◌ [] parts else onto_first c parts

-- `s.strip_prefix(p)`
unfoldable pub strip_prefix : String → String → Option String
strip_prefix [] s = some s
strip_prefix (c ∷ p) [] = none
strip_prefix (c ∷ p) (d ∷ s) =
    let rest = strip_prefix p s in if nat_eqb (code c) (code d) then rest else none

-- `s.chars().next().is_some_and(p)`
unfoldable pub first_is : (ℕ → Bool) → String → Bool
first_is p [] = false
first_is p (c ∷ s) = p (code c)

-- `s.starts_with(c)` at one character.
unfoldable pub starts_with : ℕ → String → Bool
starts_with k [] = false
starts_with k (c ∷ s) = nat_eqb (code c) k

unfoldable pub contains_char : ℕ → String → Bool
contains_char k [] = false
contains_char k (c ∷ s) = nat_eqb (code c) k || contains_char k s

-- The value of a run of decimal digits, read from the left, or `none` at another character.
unfoldable pub decimal_from : ℕ → String → Option ℕ
unfolding is_digit
decimal_from n [] = some n
decimal_from n (c ∷ s) =
    let rest = decimal_from (n * 10 + (code c - b'0')) s in if is_digit (code c) then rest else none

abbrev pub at_most : ℕ → ℕ → Option ℕ
at_most max n = if leb n max then some n else none

abbrev pub drop_plus : String → String
drop_plus [] = []
drop_plus (c ∷ s) = if nat_eqb (code c) b'+' then s else c ∷ s

-- `s.parse::<uN>()` with the type's greatest value: an optional '+', then one or more digits.
unfoldable pub parse_unsigned : ℕ → String → Option ℕ
unfolding decimal_from is_empty Option.bind
parse_unsigned max s =
    let digits = drop_plus s in
    if is_empty digits then none else Option.bind (decimal_from 0 digits) (at_most max)

-- `s.to_ascii_lowercase() == t`
unfoldable pub lower_eq : String → String → Bool
unfolding to_lower
lower_eq [] [] = true
lower_eq (c ∷ s) (d ∷ t) = nat_eqb (to_lower (code c)) (code d) && lower_eq s t
lower_eq _ _ = false

-- `s.split_at(i)` with `i` the first place of a character without `p`, or the end.
unfoldable pub span : (ℕ → Bool) → String → String × String
span p [] = ([], [])
span p (c ∷ s) = let rest = first c (span p s) in if p (code c) then rest else ([], c ∷ s)

-- The pieces of a `format!`, put together.
abbrev pub concat : List String → String
concat List.[] = []
concat (List.◌∷◌ s parts) = s ++ concat parts

-- `parts.join(separator)`
unfoldable pub join_with : String → List String → String
join_with separator List.[] = []
join_with separator (List.◌∷◌ s List.[]) = s
join_with separator (List.◌∷◌ s (List.◌∷◌ t parts)) =
    s ++ (separator ++ join_with separator (List.◌∷◌ t parts))

-- The character at a place, or `last` past the end.
abbrev pub char_at : ℕ → Char → String → Char
char_at n last [] = last
char_at zero last (c ∷ s) = c
char_at (suc n) last (c ∷ s) = char_at n last s

abbrev pub lower_char : Char → Char
lower_char c =
    if leb b'A' (code c) && leb (code c) b'Z'
    then char_at (code c - b'A') c "abcdefghijklmnopqrstuvwxyz"
    else c

-- `s.to_ascii_lowercase()`
unfoldable pub to_ascii_lowercase : String → String
to_ascii_lowercase [] = []
to_ascii_lowercase (c ∷ s) = lower_char c ∷ to_ascii_lowercase s

-- `s.contains(p)`, at a text.
unfoldable pub contains_text : String → String → Bool
unfolding strip_prefix
contains_text p [] = is_some (strip_prefix p [])
contains_text p (c ∷ s) = is_some (strip_prefix p (c ∷ s)) || contains_text p s

-- `s.ends_with(p)`
unfoldable pub ends_with : String → String → Bool
ends_with p [] = p == []
ends_with p (c ∷ s) = (p == (c ∷ s)) || ends_with p s

-- The digits of a number below ten to the `fuel`.
unfoldable pub digits : ℕ → ℕ → String
digits zero n = []
digits (suc fuel) n =
    let rest = digits fuel (n / 10) in
    let last = char_at (n % 10) "0" "0123456789" ∷ [] in if ltb n 10 then last else rest ++ last

-- `n.to_string()` of a `u64`, which has at most twenty digits.
abbrev pub show : ℕ → String
show n = digits 20 n
