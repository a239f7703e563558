-- ===== src/Common/BTree.antt =====
-- `BTreeMap<String, V>` as the list of its entries in the order of its keys, which is that of
-- iteration, and `BTreeSet<String>` as such a map to `Unit`.
pub mod Laws
use Prim.Native.Nat.{Ordering}
use Prim.Native.String.{String, compare}
use mathlib.Core.Bool.{Bool, true, false}
use mathlib.Core.Option.{Option, none, some}
use mathlib.Core.List.{List, [], ◌∷◌, map, foldl}
use confidential_agent.Common.Tests.{◌==◌, string_eq, if◌then◌else◌}

abbrev pub BTreeMap {ℓ} : Type ℓ → Type ℓ
BTreeMap V = List (String × V)

module _ {ℓ} {V : Type ℓ} where
  unfoldable pub insert : String → V → BTreeMap V → BTreeMap V
  insert k v [] = (k, v) ∷ []
  insert k v ((j, w) ∷ m) = elim (compare k j) [
    | Ordering.lt ↦ (k, v) ∷ (j, w) ∷ m
    | Ordering.eq ↦ (k, v) ∷ m
    | Ordering.gt ↦ (j, w) ∷ insert k v m
  ]

  unfoldable pub get : String → BTreeMap V → Option V
  get k [] = none
  get k ((j, v) ∷ m) = if j == k then some v else get k m

  unfoldable pub contains_key : String → BTreeMap V → Bool
  contains_key k [] = false
  contains_key k ((j, v) ∷ m) = if j == k then true else contains_key k m

  unfoldable pub keys : BTreeMap V → List String
  keys [] = []
  keys ((k, v) ∷ m) = k ∷ keys m

-- `iter().filter(|(k, _)| p(k)).collect()`
unfoldable pub filter_keys {ℓ} : {V : Type ℓ} → (String → Bool) → BTreeMap V → BTreeMap V
filter_keys p [] = []
filter_keys p ((k, v) ∷ m) = if p k then (k, v) ∷ filter_keys p m else filter_keys p m

abbrev pub BTreeSet : Type 0
BTreeSet = BTreeMap (Unit {0})

-- `.collect::<BTreeSet<_>>()`
unfoldable pub set_of : List String → BTreeSet
set_of [] = []
set_of (s ∷ xs) = insert s tt (set_of xs)
