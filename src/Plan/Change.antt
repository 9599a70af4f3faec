-- ===== src/Plan/Change.antt =====
-- `classify_config_change`.
use bypass_keenetic.Prelude.{
  Bool, true, false, ◌&&◌, ◌||◌, not, Option, none, some, String, ◌==◌, if◌then◌else◌, List, [],
  ◌∷◌,
}
use bypass_keenetic.Plan.Json.{
  Value, arr, obj, Entries, no_entry, entry, Pairs, no_pair, canonical, same, without_keys,
}
use bypass_keenetic.Plan.Config.{list_field, dict_field, text_field, config_fingerprint}

pub data ChangeKind : Type 0 where
  unchanged outbound routing outbound_and_routing core : ChangeKind

-- The fields of a dict, and the parts of a valid configuration.
unfoldable pub fields_of : Value → Pairs
fields_of (obj fs) = fs
fields_of _ = no_pair

unfoldable pub outbounds : Value → Entries
outbounds config = elim (list_field "outbounds" (fields_of config)) [
  | none ↦ no_entry
  | some vs ↦ vs
]

unfoldable pub routing_of : Value → Pairs
routing_of config = elim (dict_field "routing" (fields_of config)) [ none ↦ no_pair | some fs ↦ fs ]

unfoldable pub core_of : Value → Value
core_of config = obj (without_keys ("outbounds" ∷ "routing" ∷ []) (fields_of config))

unfoldable pub routing_base : Value → Value
routing_base config = obj (without_keys ("rules" ∷ "balancers" ∷ []) (routing_of config))

-- `[item['tag'] for item in outbounds]`
unfoldable pub tags_of : Entries → List String
tags_of no_entry = []
tags_of (entry v vs) =
    let tag : String = elim (text_field "tag" (fields_of v)) [ none ↦ "" | some t ↦ t ] in
    tag ∷ tags_of vs

unfoldable pub same_texts : List String → List String → Bool
same_texts [] [] = true
same_texts (x ∷ xs) (y ∷ ys) = x == y && same_texts xs ys
same_texts _ _ = false

-- `_canonical(a) != _canonical(b)`
unfoldable pub differ : Value → Value → Bool
differ a b = not (same (canonical a) (canonical b))

-- What follows the comparison of the digests.
unfoldable pub kind_of_change : Value → Value → ChangeKind
kind_of_change current desired =
    let outbound_changed = differ (arr (outbounds current)) (arr (outbounds desired)) in
    let routing_changed = differ (obj (routing_of current)) (obj (routing_of desired)) in
    if differ (core_of current) (core_of desired)
      || (differ (routing_base current) (routing_base desired)
          || not (same_texts (tags_of (outbounds current)) (tags_of (outbounds desired))))
    then core
    else if outbound_changed && routing_changed
    then outbound_and_routing
    else if outbound_changed
    then outbound
    else routing

module _ (digest : Value → String) where
  -- `none` is the `ValueError` of an invalid configuration.
  unfoldable pub classify_config_change : Value → Value → Option ChangeKind
  classify_config_change current desired = elim (config_fingerprint digest current) [
    | none ↦ none
    | some a ↦ elim (config_fingerprint digest desired) [
      | none ↦ none
      | some b ↦ some (if a == b then unchanged else kind_of_change current desired)
    ]
  ]
