-- ===== src/KeyPool/Repair.antt =====
-- `key_protocol_for_pool`, `key_has_supported_scheme`, `repair_key_pool_protocols` and the callers.
-- `split_scheme` is `urlsplit(key).scheme` in lower case, and `none` where `urlsplit` raises.
use bypass_keenetic.Prelude.{
  Bool, false, not, Option, none, some, List, [], ◌∷◌, ◌++◌, String, ◌==◌, if◌then◌else◌,
}
use bypass_keenetic.Prelude.Text.{strip}
use bypass_keenetic.Prelude.Dict
use bypass_keenetic.KeyPool.Catalog.{
  protocol_display_order, supported_key_schemes, protocol_for_scheme, mem,
}
use bypass_keenetic.KeyPool.Keys.{stripped_lines}
use bypass_keenetic.KeyPool.Pools.{Pools, pool, has, normalize_key_pools, ensure_pool}

-- The pools while the loop runs, and the moves from one protocol to another in their order. The
-- code's set `seen[target]` holds the keys of `repaired[target]`, and it returns the moves counted.
pub record Progress : Type 0 where
  pub repaired : Pools
  pub moves : List (String × String)

-- `{proto: [] for proto in PROTOCOLS}`
abbrev pub no_pools : List String → Pools
no_pools [] = []
no_pools (p ∷ protos) = (p, []) ∷ no_pools protos

module _ (split_scheme : String → Option String) where
  unfoldable pub key_protocol_for_pool : String → String → String
  key_protocol_for_pool default_proto key = elim (split_scheme (strip key)) [
    | none ↦ protocol_for_scheme "" (strip default_proto)
    | some scheme ↦ protocol_for_scheme scheme (strip default_proto)
  ]

  unfoldable pub key_has_supported_scheme : String → Bool
  key_has_supported_scheme key = elim (split_scheme (strip key)) [
    | none ↦ false
    | some scheme ↦ mem scheme supported_key_schemes
  ]

  -- `target`, with the fall-back to the key's own protocol.
  unfoldable pub target_of : Pools → String → String → String
  target_of repaired proto key =
      let t = key_protocol_for_pool proto key in if has repaired t then t else proto

  -- One round of the inner loop.
  unfoldable pub place_key : String → String → Progress → Progress
  place_key proto key s =
      let k = strip key in
      let t = target_of s.repaired proto k in
      if k == "" then s else if mem k (pool s.repaired t) then s else record {
        repaired = Dict.put t (pool s.repaired t ++ k ∷ []) s.repaired;
        moves = if t == proto then s.moves else s.moves ++ (proto, t) ∷ [];
      }

  unfoldable pub place_keys : String → List String → Progress → Progress
  place_keys proto [] s = s
  place_keys proto (key ∷ keys) s = place_keys proto keys (place_key proto key s)

  unfoldable pub place_all : List String → Pools → Progress → Progress
  place_all [] pools s = s
  place_all (proto ∷ protos) pools s =
      place_all protos pools (place_keys proto (pool pools proto) s)

  unfoldable pub repair_key_pool_protocols : Pools → Progress
  repair_key_pool_protocols pools =
      place_all protocol_display_order (normalize_key_pools pools)
        (record { repaired = no_pools protocol_display_order; moves = [] })

  -- The pools and the added keys with their protocols while `add_keys_to_pools_by_protocol` runs;
  -- its set `existing[target]` holds the keys of `pools[target]`.
  unfoldable pub add_line :
      String → String → Pools × List (String × String) → Pools × List (String × String)
  add_line proto key (ps, added) =
      let t = target_of ps proto key in
      if not (key_has_supported_scheme key)
      then (ps, added)
      else if mem key (pool ps t)
      then (ps, added)
      else (Dict.put t (pool ps t ++ key ∷ []) ps, added ++ (t, key) ∷ [])

  unfoldable pub add_lines :
      String → List String → Pools × List (String × String) → Pools × List (String × String)
  add_lines proto [] s = s
  add_lines proto (key ∷ keys) s = add_lines proto keys (add_line proto key s)

  -- The repaired pools, and each added key with its protocol; the code groups these.
  unfoldable pub add_keys_to_pools_by_protocol :
      Pools → String → List String → Pools × List (String × String)
  add_keys_to_pools_by_protocol pools proto lines =
      let p = strip proto in
      let (ps, added) =
        add_lines p (stripped_lines lines) (ensure_pool (normalize_key_pools pools) p, []) in
      ((repair_key_pool_protocols ps).repaired, added)
