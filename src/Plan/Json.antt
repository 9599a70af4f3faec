-- ===== src/Plan/Json.antt =====
-- JSON values, as `_json_value` accepts them and `_canonical` writes them. `json.dumps` with sorted keys
-- writes two values as the same text exactly if they are the same once their keys are sorted, so the
-- canonical form here is the value with sorted keys. A number is the text that stands for it.
use Prim.Native.Nat.{Ordering}
use Prim.Native.String.{compare}
use bypass_keenetic.Prelude.{
  Bool, true, false, ◌&&◌, not, Option, none, some, String, ◌==◌, if◌then◌else◌, List,
}
use bypass_keenetic.KeyPool.Catalog.{mem}

mutual
  -- `foreign` is any value that JSON does not have, a number that is not finite, or a dict with a key
  -- that is no text.
  pub data Value : Type 0 where
    null foreign : Value
    flag : Bool → Value
    number text : String → Value
    arr : Entries → Value
    obj : Pairs → Value

  pub data Pairs : Type 0 where
    no_pair : Pairs
    pair : String → Value → Pairs → Pairs

  pub data Entries : Type 0 where
    no_entry : Entries
    entry : Value → Entries → Entries

-- `_json_value`, which raises at a foreign value.
unfoldable mutual
  pub json_value : Value → Bool
  json_value null = true
  json_value foreign = false
  json_value (flag b) = true
  json_value (number n) = true
  json_value (text t) = true
  json_value (arr vs) = json_entries vs
  json_value (obj fs) = json_pairs fs

  pub json_entries : Entries → Bool
  json_entries no_entry = true
  json_entries (entry v vs) = json_value v && json_entries vs

  pub json_pairs : Pairs → Bool
  json_pairs no_pair = true
  json_pairs (pair k v fs) = json_value v && json_pairs fs

unfoldable pub key_le : String → String → Bool
key_le a b = elim (compare a b) [ Ordering.gt ↦ false | _ ↦ true ]

unfoldable pub insert_field : String → Value → Pairs → Pairs
insert_field k v no_pair = pair k v no_pair
insert_field k v (pair j w fs) =
    let rest = insert_field k v fs in if key_le k j then pair k v (pair j w fs) else pair j w rest

-- The value with the keys of its dicts sorted.
unfoldable mutual
  pub canonical : Value → Value
  canonical null = null
  canonical foreign = foreign
  canonical (flag b) = flag b
  canonical (number n) = number n
  canonical (text t) = text t
  canonical (arr vs) = arr (canonical_entries vs)
  canonical (obj fs) = obj (canonical_pairs fs)

  pub canonical_entries : Entries → Entries
  canonical_entries no_entry = no_entry
  canonical_entries (entry v vs) = entry (canonical v) (canonical_entries vs)

  pub canonical_pairs : Pairs → Pairs
  canonical_pairs no_pair = no_pair
  canonical_pairs (pair k v fs) = insert_field k (canonical v) (canonical_pairs fs)

unfoldable pub same_bool : Bool → Bool → Bool
same_bool true b = b
same_bool false b = not b

-- Equality of two canonical values.
unfoldable mutual
  pub same : Value → Value → Bool
  same null null = true
  same foreign foreign = true
  same (flag a) (flag b) = same_bool a b
  same (number a) (number b) = a == b
  same (text a) (text b) = a == b
  same (arr a) (arr b) = same_entries a b
  same (obj a) (obj b) = same_pairs a b
  same _ _ = false

  pub same_entries : Entries → Entries → Bool
  same_entries no_entry no_entry = true
  same_entries (entry v vs) (entry w ws) = same v w && same_entries vs ws
  same_entries _ _ = false

  pub same_pairs : Pairs → Pairs → Bool
  same_pairs no_pair no_pair = true
  same_pairs (pair k v fs) (pair j w gs) = k == j && (same v w && same_pairs fs gs)
  same_pairs _ _ = false

-- `config.get(key)`
unfoldable pub get_field : String → Pairs → Option Value
get_field k no_pair = none
get_field k (pair j v fs) = if j == k then some v else get_field k fs

-- `{key: value for key, value in config.items() if key not in keys}`
unfoldable pub without_keys : List String → Pairs → Pairs
without_keys keys no_pair = no_pair
without_keys keys (pair k v fs) =
    let rest = without_keys keys fs in if mem k keys then rest else pair k v rest
