-- ===== src/KeyPool/Changes.antt =====
-- What each operation changes: the pool of one protocol, key by key, and no other pool.
use bypass_keenetic.Prelude.{
  true, false, not, ◌&&◌, ◌||◌, List, [], ◌∷◌, ◌++◌, String, ◌==◌, if◌then◌else◌, ◌≡◌, refl, arith,
  eq_iff, eq_refl, ◌≢◌,
}
use bypass_keenetic.Prelude.Text.{strip}
use bypass_keenetic.Prelude.Dict
use bypass_keenetic.KeyPool.Catalog.{protocol_display_order, mem}
use bypass_keenetic.KeyPool.Keys.{dedupe_key_list, stripped_lines, without}
use bypass_keenetic.KeyPool.CleanLists.{mem-new_keys, mem-append, without_absent, dedupe_twice}
use bypass_keenetic.KeyPool.Pools.{
  Pools, pool, has, normalize_over, normalize_key_pools, ensure_pool, set_active_key,
  add_keys_to_pool, delete_pool_key, clear_pool, add_subscription_keys_to_pool, source_proto,
}

pub pool-put :
    (p q : String) (keys : List String) (ps : Pools)
    → pool (Dict.put p keys ps) q ≡ (if p == q then keys else pool ps q)
unfolding pool
pool-put p q keys ps = ground (arith, Dict.get-put p q keys ps)

pub pool-cons :
    (p q : String) (keys : List String) (ps : Pools)
    → pool ((p, keys) ∷ ps) q ≡ (if p == q then keys else pool ps q)
unfolding pool Dict.get
pool-cons p q keys ps = ground arith

pool-normalize_over :
    (protos : List String) (ps : Pools) (q : String)
    → pool (normalize_over protos ps) q ≡ (if mem q protos then dedupe_key_list (pool ps q) else [])
unfolding mem normalize_over
pool-normalize_over [] ps q = unfold pool Dict.get in refl
pool-normalize_over (p ∷ protos) ps q = ground (
  arith,
  eq_iff p q,
  pool-normalize_over protos ps q,
  pool-cons p q (dedupe_key_list (pool ps p)) (normalize_over protos ps),
)

-- `normalize_key_pools` keeps the six protocols, each with its list deduplicated.
pub pool-normalize_key_pools :
    (ps : Pools) (q : String)
    → pool (normalize_key_pools ps) q
      ≡ (if mem q protocol_display_order then dedupe_key_list (pool ps q) else [])
unfolding normalize_key_pools
pool-normalize_key_pools ps q = pool-normalize_over protocol_display_order ps q

pub pool-ensure_pool : (ps : Pools) (p q : String) → pool (ensure_pool ps p) q ≡ pool ps q
unfolding ensure_pool has pool
pool-ensure_pool ps p q = ground (arith, Dict.get-put p q [] ps, eq_iff p q)

-- A missing protocol has no keys.
pub pool-has : (ps : Pools) (p : String) → has ps p ≡ false → pool ps p ≡ []
unfolding has pool
pool-has ps p h = ground arith

dedupe_nil : dedupe_key_list [] ≡ []
unfolding dedupe_key_list
dedupe_nil = refl

pub dedupe_normalized :
    (ps : Pools) (p : String)
    → dedupe_key_list (pool (normalize_key_pools ps) p) ≡ pool (normalize_key_pools ps) p
dedupe_normalized ps p =
    ground (arith, pool-normalize_key_pools ps p, dedupe_twice (pool ps p), dedupe_nil)

pub absent_nil : (x : String) → mem x [] ≡ false
unfolding mem
absent_nil x = refl

pub single : (x k : String) → mem x (k ∷ []) ≡ (k == x)
unfolding mem
single x k = ground arith

-- `add_keys_to_pool`: the keys added are exactly the stripped non-empty lines that the pool did
-- not hold; they are appended to it, and the pools of the other protocols are only normalized.
pub add_keys_to_pool_lem :
    (pools : Pools) (proto q x : String) (lines : List String)
    → (pool (add_keys_to_pool pools proto lines).0 q ≡ (
        if proto == q
        then pool (normalize_key_pools pools) proto ++ (add_keys_to_pool pools proto lines).1
        else pool (normalize_key_pools pools) q))
      × (mem x (add_keys_to_pool pools proto lines).1
          ≡ (not (mem x (pool (normalize_key_pools pools) proto)) && mem x (stripped_lines lines)))
unfolding add_keys_to_pool
add_keys_to_pool_lem pools proto q x lines =
    simp (pool-put, pool-ensure_pool, mem-new_keys) (refl, refl)

-- `add_subscription_keys_to_pool`: the keys added are exactly the fetched keys of the protocol,
-- those of vless for vless2, that the pool did not hold; they are appended to it, and the pools of
-- the other protocols are only normalized.
pub add_subscription_keys_to_pool_lem :
    (pools : Pools) (proto q x : String) (fetched : Pools)
    → (pool (add_subscription_keys_to_pool pools proto fetched).0 q ≡ (
        if proto == q
        then pool (normalize_key_pools pools) proto
          ++ (add_subscription_keys_to_pool pools proto fetched).1
        else pool (normalize_key_pools pools) q))
      × (mem x (add_subscription_keys_to_pool pools proto fetched).1 ≡ (
          not (mem x (pool (normalize_key_pools pools) proto))
          && mem x (pool fetched (if proto == "vless2" then "vless" else proto))))
unfolding add_subscription_keys_to_pool source_proto
add_subscription_keys_to_pool_lem pools proto q x fetched =
    simp (pool-put, pool-ensure_pool, mem-new_keys) (refl, refl)

-- `delete_pool_key`: exactly the stripped key leaves the pool of the protocol, the other keys keep
-- their order, the other protocols are only normalized, and the result says whether it was there.
pub delete_pool_key_lem :
    (pools : Pools) (proto q key : String)
    → (pool (delete_pool_key pools proto key).0 q ≡ (
        if proto == q
        then without (strip key) (pool (normalize_key_pools pools) proto)
        else pool (normalize_key_pools pools) q))
      × ((delete_pool_key pools proto key).1
          ≡ mem (strip key) (pool (normalize_key_pools pools) proto))
unfolding delete_pool_key
delete_pool_key_lem pools proto q key =
    let ps = normalize_key_pools pools in
    rw (dedupe_normalized pools proto) (
      ground (
        arith,
        eq_iff proto q,
        pool-has ps proto,
        without_absent (strip key) (pool ps proto),
        pool-put proto q (pool ps proto) ps,
        pool-put proto q (without (strip key) (pool ps proto)) ps,
        absent_nil (strip key),
      ))

-- `clear_pool`: the pool of the protocol is empty afterwards, the result lists the keys that it
-- held, and the other protocols are only normalized.
pub clear_pool_lem :
    (pools : Pools) (proto q : String)
    → (pool (clear_pool pools proto).0 q
        ≡ (if proto == q then [] else pool (normalize_key_pools pools) q))
      × ((clear_pool pools proto).1 ≡ pool (normalize_key_pools pools) proto)
unfolding clear_pool
clear_pool_lem pools proto q =
    let ps = normalize_key_pools pools in
    rw (dedupe_normalized pools proto)
      (ground (arith, eq_iff proto q, pool-has ps proto, pool-put proto q [] ps))

-- `set_active_key` for a protocol of the catalogue and a key that is not blank: the pool holds the
-- stripped key and what it held, and no other key.
pub set_active_key_lem :
    (pools : Pools) (proto key x : String)
    → has (normalize_key_pools pools) proto ≡ true
    → strip key ≢ ""
    → mem x (pool (set_active_key pools proto key) proto)
      ≡ (mem x (pool (normalize_key_pools pools) proto) || x == strip key)
unfolding set_active_key
set_active_key_lem pools proto key x h n =
    let ps = normalize_key_pools pools in
    rw (dedupe_normalized pools proto) (
      ground (
        arith,
        eq_refl proto,
        eq_iff (strip key) "",
        eq_iff x (strip key),
        eq_iff (strip key) x,
        pool-put proto proto (pool ps proto) ps,
        pool-put proto proto (pool ps proto ++ strip key ∷ []) ps,
        mem-append x (pool ps proto) (strip key ∷ []),
        single x (strip key),
      ))
