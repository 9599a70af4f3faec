-- ===== src/KeyPool/Placement.antt =====
-- After a repair every key stands where its scheme belongs, and no key is lost.
use bypass_keenetic.Prelude.{
  Bool, true, false, not, ◌||◌, ◌&&◌, Option, List, [], ◌∷◌, ◌++◌, String, ◌==◌, ◌≡◌, refl, arith,
  eq_iff, map, All, ◌∙◌, sym, ap,
}
use bypass_keenetic.Prelude.Text.{strip}
use bypass_keenetic.Prelude.Dict
use bypass_keenetic.KeyPool.Catalog.{protocol_display_order, mem}
use bypass_keenetic.KeyPool.Pools.{Pools, pool, has, normalize_key_pools}
use bypass_keenetic.KeyPool.CleanLists.{mem-append, dedupe_key_list-clean}
use bypass_keenetic.KeyPool.Changes.{pool-put, pool-cons, dedupe_normalized, single, absent_nil}
use bypass_keenetic.KeyPool.Repair.{
  Progress, key_protocol_for_pool, target_of, place_key, place_keys, place_all, no_pools,
  repair_key_pool_protocols,
}

has-put :
    (p q : String) (keys : List String) (ps : Pools)
    → has (Dict.put p keys ps) q ≡ (p == q || has ps q)
unfolding has
has-put p q keys ps = ground (arith, Dict.get-put p q keys ps, eq_iff p q)

pub pool-no_pools : (protos : List String) (t : String) → pool (no_pools protos) t ≡ []
pool-no_pools [] t = unfold pool Dict.get in refl
pool-no_pools (p ∷ protos) t =
    ground (arith, pool-cons p t [] (no_pools protos), pool-no_pools protos t)

-- The lists hold stripped keys and no blank one.
abbrev pub Stripped : Pools → String → Type 0
Stripped pools x =
    (p : String) → mem x (pool pools p) ≡ (not (x == "") && mem x (map strip (pool pools p)))

normalized-Stripped : (pools : Pools) (x : String) → Stripped (normalize_key_pools pools) x
normalized-Stripped pools x p =
    ap (mem x) (sym (dedupe_normalized pools p))
    ∙ (dedupe_key_list-clean (pool (normalize_key_pools pools) p) x).1

-- Both pools know the same protocols, so a key has one target in both.
abbrev pub SameProtocols : Pools → Pools → Type 0
SameProtocols ps qs = (q : String) → has ps q ≡ has qs q

module _ (split_scheme : String → Option String) where
  target-same :
      (ps qs : Pools) (p x : String)
      → SameProtocols ps qs
      → target_of split_scheme ps p x ≡ target_of split_scheme qs p x
  unfolding target_of
  target-same ps qs p x h = ground (arith, h (key_protocol_for_pool split_scheme p x))

  has-target :
      (ps : Pools) (p x : String) → has ps p ≡ true → has ps (target_of split_scheme ps p x) ≡ true
  unfolding target_of
  has-target ps p x h = ground arith

  place_key-same :
      (p key : String) (s : Progress)
      → has s.repaired p ≡ true
      → SameProtocols (place_key split_scheme p key s).repaired s.repaired
  unfolding place_key
  place_key-same p key s h q =
      let t = target_of split_scheme s.repaired p (strip key) in
      ground (
        arith,
        has-target s.repaired p (strip key) h,
        eq_iff t q,
        has-put t q (pool s.repaired t ++ strip key ∷ []) s.repaired,
      )

  place_key-mem :
      (p key x t : String) (s : Progress)
      → mem x (pool (place_key split_scheme p key s).repaired t) ≡ (
          mem x (pool s.repaired t)
          || (strip key == x && (not (x == "") && target_of split_scheme s.repaired p x == t)))
  unfolding place_key
  place_key-mem p key x t s =
      let k = strip key in
      let u = target_of split_scheme s.repaired p k in
      ground (
        arith,
        eq_iff k x,
        eq_iff k "",
        eq_iff x "",
        eq_iff u t,
        eq_iff (target_of split_scheme s.repaired p x) t,
        pool-put u t (pool s.repaired u ++ k ∷ []) s.repaired,
        mem-append x (pool s.repaired u) (k ∷ []),
        single x k,
      )

  pub place_keys-same :
      (p : String) (keys : List String) (s : Progress)
      → has s.repaired p ≡ true
      → SameProtocols (place_keys split_scheme p keys s).repaired s.repaired
  unfolding place_keys
  place_keys-same p [] s h q = refl
  place_keys-same p (key ∷ keys) s h q =
      let same = place_key-same p key s h in
      place_keys-same p keys (place_key split_scheme p key s) (same p ∙ h) q ∙ same q

  place_keys-mem :
      (p : String) (keys : List String) (x t : String) (s : Progress)
      → has s.repaired p ≡ true
      → mem x (pool (place_keys split_scheme p keys s).repaired t) ≡ (
          mem x (pool s.repaired t)
          || (mem x (map strip keys)
              && (not (x == "") && target_of split_scheme s.repaired p x == t)))
  unfolding place_keys mem
  place_keys-mem p [] x t s h = ground arith
  place_keys-mem p (key ∷ keys) x t s h =
      let s' = place_key split_scheme p key s in
      let same = place_key-same p key s h in
      ground (
        arith,
        place_key-mem p key x t s,
        target-same s'.repaired s.repaired p x same,
        place_keys-mem p keys x t s' (same p ∙ h),
      )

  -- The key is in the list of one of the protocols, and `t` is its target there.
  unfoldable pub arrives : Pools → String → String → Pools → List String → Bool
  arrives pools x t known [] = false
  arrives pools x t known (p ∷ protos) =
      (mem x (pool pools p) && target_of split_scheme known p x == t)
      || arrives pools x t known protos

  place_all-mem :
      (protos : List String) (pools known : Pools) (x t : String) (s : Progress)
      → All (λ p. has known p ≡ true) protos
      → Stripped pools x
      → SameProtocols s.repaired known
      → mem x (pool (place_all split_scheme protos pools s).repaired t)
        ≡ (mem x (pool s.repaired t) || arrives pools x t known protos)
  unfolding place_all arrives
  place_all-mem [] pools known x t s c n same = ground arith
  place_all-mem (p ∷ protos) pools known x t s c n same =
      let s' = place_keys split_scheme p (pool pools p) s in
      let here : has s.repaired p ≡ true = same p ∙ c.0 in
      let same' : SameProtocols s'.repaired known =
        λ q. place_keys-same p (pool pools p) s here q ∙ same q in
      ground (
        arith,
        n p,
        target-same s.repaired known p x same,
        place_keys-mem p (pool pools p) x t s here,
        place_all-mem protos pools known x t s' c.1 n same',
      )

  -- `repair_key_pool_protocols`: a key stands in the repaired pool of a protocol exactly if the
  -- normalized pools held it under a protocol from which that is its target. So no key is lost,
  -- none appears, and each stands only where its scheme sends it.
  pub repair_key_pool_protocols_lem :
      (pools : Pools) (x t : String)
      → mem x (pool (repair_key_pool_protocols split_scheme pools).repaired t)
        ≡ arrives
            (normalize_key_pools pools)
            x
            t
            (no_pools protocol_display_order)
            protocol_display_order
  unfolding repair_key_pool_protocols
  repair_key_pool_protocols_lem pools x t =
      place_all-mem protocol_display_order (normalize_key_pools pools)
        (no_pools protocol_display_order) x t
        (record { repaired = no_pools protocol_display_order; moves = [] })
        (unfold has Dict.get in (refl, (refl, (refl, (refl, (refl, (refl, tt)))))))
        (normalized-Stripped pools x) (λ q. refl)
      ∙ rw (pool-no_pools protocol_display_order t, absent_nil x)
