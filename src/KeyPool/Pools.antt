-- ===== src/KeyPool/Pools.antt =====
-- The operations on the pools. A text of several keys is given as its lines.
use bypass_keenetic.Prelude.{
  Bool, true, false, not, List, [], ◌∷◌, ◌++◌, String, ◌==◌, if◌then◌else◌, is_some,
}
use bypass_keenetic.Prelude.Text.{strip}
use bypass_keenetic.Prelude.Dict
use bypass_keenetic.Prelude.Dict.{Dict}
use bypass_keenetic.KeyPool.Catalog.{protocol_display_order, mem}
use bypass_keenetic.KeyPool.Keys.{dedupe_key_list, new_keys, stripped_lines, without}

abbrev pub Pools : Type 0
Pools = Dict (List String)

-- `pools.get(proto, [])`
unfoldable pub pool : Pools → String → List String
unfolding Dict.get_or
pool pools proto = Dict.get_or proto [] pools

-- `proto in pools`
unfoldable pub has : Pools → String → Bool
unfolding Dict.get
has pools proto = is_some (Dict.get proto pools)

-- The comprehension of `normalize_key_pools` over the protocols.
unfoldable pub normalize_over : List String → Pools → Pools
normalize_over [] pools = []
normalize_over (p ∷ protos) pools =
    (p, dedupe_key_list (pool pools p)) ∷ normalize_over protos pools

unfoldable pub normalize_key_pools : Pools → Pools
unfolding normalize_over
normalize_key_pools pools = normalize_over protocol_display_order pools

-- `if proto not in pools: pools[proto] = []`
unfoldable pub ensure_pool : Pools → String → Pools
ensure_pool pools proto = if has pools proto then pools else Dict.put proto [] pools

unfoldable pub set_active_key : Pools → String → String → Pools
set_active_key pools proto key =
    let ps = normalize_key_pools pools in
    let k = strip key in
    let keys = dedupe_key_list (pool ps proto) in
    if not (has ps proto)
    then ps
    else if k == ""
    then ps
    else Dict.put proto (if mem k keys then keys else keys ++ k ∷ []) ps

-- The pools after, and the keys added.
unfoldable pub add_keys_to_pool : Pools → String → List String → Pools × List String
add_keys_to_pool pools proto lines =
    let ps = ensure_pool (normalize_key_pools pools) proto in
    let added = new_keys (pool ps proto) (stripped_lines lines) in
    (Dict.put proto (pool ps proto ++ added) ps, added)

unfoldable pub source_proto : String → String
source_proto proto = if proto == "vless2" then "vless" else proto

unfoldable pub add_subscription_keys_to_pool : Pools → String → Pools → Pools × List String
add_subscription_keys_to_pool pools proto fetched =
    let ps = ensure_pool (normalize_key_pools pools) proto in
    let added = new_keys (pool ps proto) (pool fetched (source_proto proto)) in
    (Dict.put proto (pool ps proto ++ added) ps, added)

-- The pools after, and whether the key was there.
unfoldable pub delete_pool_key : Pools → String → String → Pools × Bool
delete_pool_key pools proto key =
    let ps = normalize_key_pools pools in
    let k = strip key in
    let keys = dedupe_key_list (pool ps proto) in
    if not (has ps proto)
    then (ps, false)
    else if not (mem k keys)
    then (Dict.put proto keys ps, false)
    else (Dict.put proto (without k keys) ps, true)

-- The pools after, and the keys removed.
unfoldable pub clear_pool : Pools → String → Pools × List String
clear_pool pools proto =
    let ps = normalize_key_pools pools in
    if not (has ps proto) then (ps, []) else (Dict.put proto [] ps, dedupe_key_list (pool ps proto))
