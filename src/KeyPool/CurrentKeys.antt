-- ===== src/KeyPool/CurrentKeys.antt =====
-- The keys in use stay in their pools.
use bypass_keenetic.Prelude.{
  true, false, not, ◌&&◌, ◌||◌, List, [], ◌∷◌, String, ◌==◌, if◌then◌else◌, ◌≡◌, ◌⊎◌, refl, arith,
  eq_iff, Bool-cases, inl, inr,
}
use bypass_keenetic.Prelude.Text.{strip}
use bypass_keenetic.Prelude.Dict
use bypass_keenetic.Prelude.Dict.{Dict}
use bypass_keenetic.KeyPool.Catalog.{protocol_display_order, mem}
use bypass_keenetic.KeyPool.Keys.{dedupe_key_list}
use bypass_keenetic.KeyPool.CleanLists.{mem-append}
use bypass_keenetic.KeyPool.Pools.{Pools, pool, normalize_key_pools}
use bypass_keenetic.KeyPool.Changes.{
  pool-cons, pool-normalize_key_pools, dedupe_normalized, single, absent_nil,
}
use bypass_keenetic.KeyPool.Subscription.{
  with_current, ensure_over, any_changed, ensure_current_keys_in_pools,
}

with_current_lem :
    (x key : String) (keys : List String)
    → mem x (with_current keys key) ≡ (mem x keys || (not (key == "") && key == x))
unfolding with_current
with_current_lem x key keys =
    ground (arith, eq_iff key x, mem-append x keys (key ∷ []), single x key)

pool-ensure_over :
    (protos : List String) (ps : Pools) (ck : Dict String) (q : String)
    → pool (ensure_over protos ps ck) q ≡ (
        if mem q protos
        then with_current (dedupe_key_list (pool ps q)) (strip (Dict.get_or q "" ck))
        else [])
unfolding mem ensure_over
pool-ensure_over [] ps ck q = unfold pool Dict.get_or Dict.get in refl
pool-ensure_over (p ∷ protos) ps ck q = ground (
  arith,
  eq_iff p q,
  pool-ensure_over protos ps ck q,
  pool-cons p q (with_current (dedupe_key_list (pool ps p)) (strip (Dict.get_or p "" ck)))
      (ensure_over protos ps ck),
)

unchanged :
    (protos : List String) (ps : Pools) (ck : Dict String) (q : String)
    → any_changed protos ps ck ≡ false
    → mem q protos ≡ true
    → with_current (dedupe_key_list (pool ps q)) (strip (Dict.get_or q "" ck))
      ≡ dedupe_key_list (pool ps q)
unfolding any_changed mem with_current
unchanged [] ps ck q h m = ground arith
unchanged (p ∷ protos) ps ck q h m = ground (arith, eq_iff p q, unchanged protos ps ck q)

-- `ensure_current_keys_in_pools`: afterwards the pool of each protocol of the catalogue holds what it
-- held and the protocol's key in use, if that is not blank, and no other key; unless the result says
-- that something changed, no pool differs from the normalized one.
pub ensure_current_keys_in_pools_lem :
    (pools : Pools) (ck : Dict String) (q x : String)
    → (mem x (pool (ensure_current_keys_in_pools pools ck).0 q) ≡ (
        mem x (pool (normalize_key_pools pools) q)
        || (mem q protocol_display_order && (not (x == "") && strip (Dict.get_or q "" ck) == x))))
      × (((ensure_current_keys_in_pools pools ck).1 ≡ true)
          ⊎ (pool (ensure_current_keys_in_pools pools ck).0 q ≡ pool (normalize_key_pools pools) q))
unfolding ensure_current_keys_in_pools
ensure_current_keys_in_pools_lem pools ck q x =
    let ps = normalize_key_pools pools in
    let key = strip (Dict.get_or q "" ck) in
    (
      ground (
        arith,
        pool-ensure_over protocol_display_order ps ck q,
        dedupe_normalized pools q,
        with_current_lem x key (pool ps q),
        eq_iff key x,
        eq_iff key "",
        eq_iff x "",
        pool-normalize_key_pools pools q,
        absent_nil x,
      ),
      elim (Bool-cases (any_changed protocol_display_order ps ck)) [
        | inl e ↦ inl e
        | inr e ↦ inr (
            ground (
              arith,
              pool-ensure_over protocol_display_order ps ck q,
              dedupe_normalized pools q,
              unchanged protocol_display_order ps ck q e,
              pool-normalize_key_pools pools q,
            ))
      ],
    )
