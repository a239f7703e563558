-- ===== src/Common/Json.antt =====
-- `serde_json::Value`, with its objects as lists of members in the order of their keys.
use Prim.Native.Nat.{ℕ}
use Prim.Native.String.{String}
use mathlib.Core.Bool.{Bool}
use mathlib.Core.Option.{Option, none, some}
use confidential_agent.Common.Tests.{◌==◌, string_eq, if◌then◌else◌}

-- `num` is a number that fits `u64`; any other is kept as its text.
mutual
  pub data Json : Type 0 where
    null : Json
    bool : Bool → Json
    num : ℕ → Json
    other_num : String → Json
    str : String → Json
    arr : Elems → Json
    obj : Members → Json

  pub data Elems : Type 0 where
    nil : Elems
    cons : Json → Elems → Elems

  pub data Members : Type 0 where
    end : Members
    member : String → Json → Members → Members

unfoldable pub find_member : String → Members → Option Json
find_member key end = none
find_member key (member k v rest) = if k == key then some v else find_member key rest

-- `value.get(key)` at a text.
unfoldable pub get : Json → String → Option Json
unfolding find_member
get (obj members) key = find_member key members
get _ key = none

-- `value.as_str()`
unfoldable pub as_str : Json → Option String
as_str (str s) = some s
as_str _ = none

-- `value.as_u64()`
unfoldable pub as_u64 : Json → Option ℕ
as_u64 (num n) = some n
as_u64 _ = none
