-- ===== src/KeyPool/Recovery.antt =====
-- What a load finds after a save that was cut off, and after damage to one of the files.
use bypass_keenetic.Prelude.{
  true, false, ◌||◌, Option, List, [], ◌∷◌, ◌++◌, String, ◌==◌, All, ◌≡◌, refl, arith, eq_iff, ◌⊎◌,
  inl, inr, ok, ◌∙◌,
}
use bypass_keenetic.Prelude.Text.{strip, strip-strip}
use bypass_keenetic.Prelude.Dict
use bypass_keenetic.KeyPool.Catalog.{protocol_display_order, mem}
use bypass_keenetic.KeyPool.Keys.{dedupe_key_list}
use bypass_keenetic.KeyPool.CleanLists.{clean, dedupe_of_clean}
use bypass_keenetic.KeyPool.Changes.{pool-put, pool-has, pool-normalize_key_pools, absent_nil}
use bypass_keenetic.KeyPool.Pools.{Pools, pool, has, normalize_key_pools}
use bypass_keenetic.KeyPool.Repair.{
  Progress, target_of, place_key, place_keys, place_all, no_pools, repair_key_pool_protocols,
}
use bypass_keenetic.KeyPool.Placement.{place_keys-same, pool-no_pools, SameProtocols}
use bypass_keenetic.KeyPool.Storage.{
  PoolFile, missing, unreadable, holds, Store, Outcome, fine, before, behind, load_key_pools,
  save_key_pools,
}

clean-snoc :
    (seen keys : List String) (k : String)
    → clean seen keys ≡ true
    → (k == "") ≡ false
    → strip k ≡ k
    → mem k keys ≡ false
    → mem k seen ≡ false
    → clean seen (keys ++ k ∷ []) ≡ true
unfolding clean mem
clean-snoc seen [] k c n s m m' = ground (arith, eq_iff (strip k) k)
clean-snoc seen (j ∷ keys) k c n s m m' = ground (arith, eq_iff j k, clean-snoc (j ∷ seen) keys k)

-- Every list of the pools is clean.
abbrev Tidy : Pools → Type 0
Tidy ps = (q : String) → clean [] (pool ps q) ≡ true

has-cons :
    (p q : String) (keys : List String) (ps : Pools) → has ((p, keys) ∷ ps) q ≡ (p == q || has ps q)
unfolding has Dict.get
has-cons p q keys ps = ground arith

mem-cons : (p q : String) (protos : List String) → mem q (p ∷ protos) ≡ (p == q || mem q protos)
unfolding mem
mem-cons p q protos = refl

module _ (split_scheme : String → Option String) where
  place_key-Tidy :
      (p key : String) (s : Progress)
      → Tidy s.repaired
      → Tidy (place_key split_scheme p key s).repaired
  unfolding place_key
  place_key-Tidy p key s h q =
      let k = strip key in
      let t = target_of split_scheme s.repaired p k in
      ground (
        arith,
        h q,
        h t,
        eq_iff t q,
        strip-strip key,
        pool-put t q (pool s.repaired t ++ k ∷ []) s.repaired,
        clean-snoc [] (pool s.repaired t) k,
        absent_nil k,
      )

  place_keys-Tidy :
      (p : String) (keys : List String) (s : Progress)
      → Tidy s.repaired
      → Tidy (place_keys split_scheme p keys s).repaired
  unfolding place_keys
  place_keys-Tidy p [] s h = h
  place_keys-Tidy p (key ∷ keys) s h =
      place_keys-Tidy p keys (place_key split_scheme p key s) (place_key-Tidy p key s h)

  place_all-Tidy :
      (protos : List String) (pools : Pools) (s : Progress)
      → Tidy s.repaired
      → Tidy (place_all split_scheme protos pools s).repaired
  unfolding place_all
  place_all-Tidy [] pools s h = h
  place_all-Tidy (p ∷ protos) pools s h =
      place_all-Tidy protos pools (place_keys split_scheme p (pool pools p) s)
        (place_keys-Tidy p (pool pools p) s h)

  nothing-Tidy : (protos : List String) → Tidy (no_pools protos)
  nothing-Tidy protos q = rw (pool-no_pools protos q) (unfold clean in refl)

  place_all-same :
      (protos : List String) (pools known : Pools) (s : Progress)
      → All (λ p. has known p ≡ true) protos
      → SameProtocols s.repaired known
      → SameProtocols (place_all split_scheme protos pools s).repaired known
  unfolding place_all
  place_all-same [] pools known s c same q = same q
  place_all-same (p ∷ protos) pools known s c same q =
      place_all-same protos pools known (place_keys split_scheme p (pool pools p) s) c.1
        (λ r. place_keys-same split_scheme p (pool pools p) s (same p ∙ c.0) r ∙ same r) q

  has-no_pools : (protos : List String) (q : String) → has (no_pools protos) q ≡ mem q protos
  has-no_pools [] q = unfold has Dict.get mem in refl
  has-no_pools (p ∷ protos) q =
      ground (arith, has-cons p q [] (no_pools protos), mem-cons p q protos, has-no_pools protos q)

  repaired-Tidy : (pools : Pools) → Tidy (repair_key_pool_protocols split_scheme pools).repaired
  unfolding repair_key_pool_protocols
  repaired-Tidy pools =
      place_all-Tidy protocol_display_order (normalize_key_pools pools)
        (record { repaired = no_pools protocol_display_order; moves = [] })
        (nothing-Tidy protocol_display_order)

  repaired_has :
      (pools : Pools) (q : String)
      → has (repair_key_pool_protocols split_scheme pools).repaired q ≡ mem q protocol_display_order
  unfolding repair_key_pool_protocols
  repaired_has pools q =
      place_all-same protocol_display_order (normalize_key_pools pools)
        (no_pools protocol_display_order)
        (record { repaired = no_pools protocol_display_order; moves = [] })
        (unfold has Dict.get in (refl, (refl, (refl, (refl, (refl, (refl, tt))))))) (λ r. refl) q
      ∙ has-no_pools protocol_display_order q

  dedupe_clean : (keys : List String) → clean [] keys ≡ true → dedupe_key_list keys ≡ keys
  unfolding dedupe_key_list
  dedupe_clean keys c = dedupe_of_clean [] keys c

  -- What a load makes of the saved file.
  abbrev pub saved : Pools → Pools
  saved pools = normalize_key_pools (repair_key_pool_protocols split_scheme pools).repaired

  -- Repaired pools are tidy: every list is clean, and only the protocols of the catalogue have one.
  repaired-normal :
      (pools : Pools) (q : String)
      → pool (normalize_key_pools (repair_key_pool_protocols split_scheme pools).repaired) q
        ≡ pool (repair_key_pool_protocols split_scheme pools).repaired q
  repaired-normal pools q =
      let ps = (repair_key_pool_protocols split_scheme pools).repaired in
      ground (
        arith,
        pool-normalize_key_pools ps q,
        pool-has ps q,
        repaired_has pools q,
        dedupe_clean (pool ps q) (repaired-Tidy pools q),
      )

  primary_first :
      (a b b' : PoolFile) (ps : Pools)
      → b' ≡ holds ps
      → (load_key_pools (record { primary = a; last_good = b' })
          ≡ load_key_pools (record { primary = a; last_good = b }))
        ⊎ (load_key_pools (record { primary = a; last_good = b' }) ≡ ok (normalize_key_pools ps))
  unfolding load_key_pools
  primary_first missing b b' ps e = inr (rw e)
  primary_first unreadable b b' ps e = inr (rw e)
  primary_first (holds c) b b' ps e = inl refl

  -- `load_key_pools` after a `save_key_pools` that may fail, or be cut off, at either of its writes:
  -- it gives what a load gave before the save, or the pools that were to be saved.
  pub load-save :
      (first second : Outcome) (pools : Pools) (s : Store)
      → (load_key_pools (save_key_pools split_scheme first second pools s).0 ≡ load_key_pools s)
        ⊎ (load_key_pools (save_key_pools split_scheme first second pools s).0 ≡ ok (saved pools))
  unfolding save_key_pools
  load-save before second pools s = inl refl
  load-save behind second pools s =
      primary_first s.primary s.last_good
        (holds (repair_key_pool_protocols split_scheme pools).repaired)
        (repair_key_pool_protocols split_scheme pools).repaired refl
  load-save fine before pools s =
      primary_first s.primary s.last_good
        (holds (repair_key_pool_protocols split_scheme pools).repaired)
        (repair_key_pool_protocols split_scheme pools).repaired refl
  load-save fine fine pools s = inr (unfold load_key_pools in refl)
  load-save fine behind pools s = inr (unfold load_key_pools in refl)

  -- `save_key_pools` when both writes succeed: it returns the repaired pools, and a load then gives
  -- pools with the same lists, also after one of the two files is damaged or lost.
  pub load-save_damaged :
      (pools : Pools) (s : Store) (f : PoolFile) (q : String)
      → (f ≡ unreadable) ⊎ (f ≡ missing)
      → let after = save_key_pools split_scheme fine fine pools s in
        let repaired = (repair_key_pool_protocols split_scheme pools).repaired in
        (after.1 ≡ ok repaired)
        × (pool (saved pools) q ≡ pool repaired q)
        × (load_key_pools after.0 ≡ ok (saved pools))
        × (load_key_pools (record after.0 { primary = f }) ≡ ok (saved pools))
        × (load_key_pools (record after.0 { last_good = f }) ≡ ok (saved pools))
  unfolding save_key_pools load_key_pools
  load-save_damaged pools s f q (inl e) = (refl, repaired-normal pools q, refl, rw e, refl)
  load-save_damaged pools s f q (inr e) = (refl, repaired-normal pools q, refl, rw e, refl)
