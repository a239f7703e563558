-- ===== src/Gateway/Canonical.antt =====
-- gateway/src/lib.rs: `canonical_json`, `hex_encode` and the hashes of the audit chain. A text stands for
-- its bytes of UTF-8; SHA-256, and how serde_json writes texts and numbers, are parameters.
use Prim.Native.Char.{Char}
use Prim.Native.String
use Prim.Native.String.{String}
use confidential_agent.Common.{ℕ, zero, suc, true, false, ◌/◌, ◌%◌, List, [], ◌∷◌}
use confidential_agent.Common.Text.{empty_text}
use confidential_agent.Common.BTree.{BTreeMap, insert}
use confidential_agent.Common.Json.{Json, Elems, Members}
use confidential_agent.Gateway.{Bytes}

pub record Encoders : Type 0 where
  pub sha256 : String → Bytes
  pub quote : String → String
  pub number : ℕ → String

abbrev digit_at : ℕ → String → Char
digit_at n String.[] = "0"
digit_at zero (String.◌∷◌ c s) = c
digit_at (suc n) (String.◌∷◌ c s) = digit_at n s

-- A digit of `{:02x}`.
unfoldable pub hex_digit : ℕ → Char
hex_digit n = digit_at n "0123456789abcdef"

unfoldable pub hex_encode : Bytes → String
hex_encode [] = empty_text
hex_encode (b ∷ bytes) =
    String.◌∷◌ (hex_digit (b / 16)) (String.◌∷◌ (hex_digit (b % 16)) (hex_encode bytes))

-- The members in the order of their keys, between commas.
unfoldable pub join_members : (String → String) → BTreeMap String → String
join_members quote [] = empty_text
join_members quote ((k, v) ∷ []) = String.◌++◌ (quote k) (String.◌++◌ ":" v)
join_members quote ((k, v) ∷ m ∷ rest) =
    String.◌++◌ (quote k)
      (String.◌++◌ ":" (String.◌++◌ v (String.◌++◌ "," (join_members quote (m ∷ rest)))))

unfoldable pub join_items : List String → String
join_items [] = empty_text
join_items (s ∷ []) = s
join_items (s ∷ t ∷ rest) = String.◌++◌ s (String.◌++◌ "," (join_items (t ∷ rest)))

module _ (encoders : Encoders) where
  unfoldable mutual
    pub canonical_json : Json → String
    canonical_json Json.null = "null"
    canonical_json (Json.bool true) = "true"
    canonical_json (Json.bool false) = "false"
    canonical_json (Json.num n) = encoders.number n
    canonical_json (Json.other_num s) = s
    canonical_json (Json.str s) = encoders.quote s
    canonical_json (Json.arr items) =
        String.◌++◌ "[" (String.◌++◌ (join_items (canonical_items items)) "]")
    canonical_json (Json.obj members) =
        String.◌++◌ "{" (String.◌++◌ (join_members encoders.quote (canonical_members members)) "}")

    pub canonical_items : Elems → List String
    canonical_items Elems.nil = []
    canonical_items (Elems.cons v items) = canonical_json v ∷ canonical_items items

    -- The members, sorted by `collect::<BTreeMap<_, _>>()`.
    pub canonical_members : Members → BTreeMap String
    canonical_members Members.end = []
    canonical_members (Members.member k v rest) =
        insert k (canonical_json v) (canonical_members rest)

  unfoldable pub chain_hash : String → Json → String
  chain_hash prev_hash value =
      hex_encode (encoders.sha256 (String.◌++◌ prev_hash (canonical_json value)))

  unfoldable pub hash_json_value : Json → String
  hash_json_value value = hex_encode (encoders.sha256 (canonical_json value))
