-- ===== src/KeyPool/Candidates/Filter.antt =====
-- Which keys are candidates, and in which order they come.
use bypass_keenetic.Prelude.{
  ℕ, suc, Bool, true, false, not, some, none, ◌+◌, ltb, leb, ◌=ℕ◌, ◌&&◌, ◌||◌, List, [], ◌∷◌, ◌++◌,
  String, ◌==◌, ◌≡◌, refl, arith, eq_iff, Option-cases, Bool-cases, inl, inr, ap, sym, ◌∙◌, keep,
  map, All,
}
use bypass_keenetic.Prelude.Text.{strip}
use bypass_keenetic.KeyPool.Catalog.{mem, protocol_display_order}
use bypass_keenetic.KeyPool.Keys.{new_keys, stripped_lines}
use bypass_keenetic.KeyPool.CleanLists.{mem-new_keys, mem-append}
use bypass_keenetic.KeyPool.Pools.{Pools, pool, has, normalize_key_pools}
use bypass_keenetic.KeyPool.Candidates.Probe.{
  Query, probe_of, score_of, recently_failed, by_answer, is_false,
}
use bypass_keenetic.KeyPool.Candidates.Choice.{
  Scored, admitted, scored, from_pool, from_protocols, first_protocols, priority, protocol_order,
  keys_of, ranked, or_all, sort_candidates, failover_candidates,
}
use bypass_keenetic.KeyPool.Candidates.Order.{mem_pair, mem_pair-sort_candidates}
use bypass_keenetic.KeyPool.Candidates.Ranking.{Ordered, Placed, searched, ranked-Ordered}

mem_pair-append :
    (p k : String) (cs ds : List Scored)
    → mem_pair p k (keys_of (cs ++ ds)) ≡ (mem_pair p k (keys_of cs) || mem_pair p k (keys_of ds))
unfolding mem_pair keys_of
mem_pair-append p k [] ds = refl
mem_pair-append p k (c ∷ cs) ds = ground (arith, mem_pair-append p k cs ds)

-- One of the keys, stripped, is this key.
unfoldable pub holds : String → List String → Bool
holds k [] = false
holds k (raw ∷ keys) = strip raw == k || holds k keys

mem_pair-from_pool :
    (q : Query) (current : String × String) (p k proto : String) (rank index : ℕ)
    (keys : List String)
    → mem_pair p k (keys_of (from_pool q current proto rank index keys))
      ≡ (proto == p && (holds k keys && admitted q current p k))
unfolding mem_pair keys_of from_pool holds scored
mem_pair-from_pool q current p k proto rank index [] = ground arith
mem_pair-from_pool q current p k proto rank index (raw ∷ keys) = ground (
  arith,
  eq_iff proto p,
  eq_iff (strip raw) k,
  mem_pair-from_pool q current p k proto rank (suc index) keys,
)

mem_pair-from_protocols :
    (q : Query) (current : String × String) (p k : String) (pools : Pools) (rank : ℕ)
    (protos : List String)
    → mem_pair p k (keys_of (from_protocols q current pools rank protos))
      ≡ (mem p protos && (holds k (pool pools p) && admitted q current p k))
unfolding from_protocols mem
mem_pair-from_protocols q current p k pools rank [] = unfold mem_pair keys_of in refl
mem_pair-from_protocols q current p k pools rank (proto ∷ protos) = ground (
  arith,
  eq_iff proto p,
  mem_pair-append p k (from_pool q current proto rank 0 (pool pools proto))
      (from_protocols q current pools (suc rank) protos),
  mem_pair-from_pool q current p k proto rank 0 (pool pools proto),
  mem_pair-from_protocols q current p k pools (suc rank) protos,
)

first_protocols-mem :
    (p current : String) (order : List String)
    → mem p (first_protocols current order) ≡ true
    → mem p order ≡ true
unfolding first_protocols mem
first_protocols-mem p current order h = ground (
  arith,
  eq_iff current p,
  eq_iff "vless" p,
  eq_iff "vless2" p,
  mem-append p (current ∷ []) ("vless" ∷ []),
  mem-append p (current ∷ []) ("vless2" ∷ []),
)

mem-priority :
    (p current : String) (order : List String) → mem p (priority current order) ≡ mem p order
unfolding priority
mem-priority p current order = ground (
  arith,
  mem-append p (first_protocols current order) (new_keys (first_protocols current order) order),
  mem-new_keys p (first_protocols current order) order,
  first_protocols-mem p current order,
)

-- The last check of Telegram failed; the services of YouTube and of a route do not look at it.
abbrev pub telegram_failed : Query → String → Bool
telegram_failed q k =
    not (q.service == "youtube" || q.service == "route")
    && elim (probe_of q k).tg_ok [ some false ↦ true | some true ↦ false | none ↦ false ]

-- The failed check is one of the last seconds of the backoff; a time of 0 is none.
abbrev pub within_backoff : Query → String → Bool
within_backoff q k =
    let ts = (probe_of q k).ts in
    not (ts =ℕ 0) && (not (q.now =ℕ 0) && ltb q.now (ts + q.recent_failure_backoff_seconds))

-- The key may be taken.
abbrev pub wanted : Query → String × String → String → String → Bool
wanted q current p k = not (
    k == ""
    || ((p == current.0 && k == current.1)
        || (holds k q.exclude_keys
            || (telegram_failed q k
                && (q.skip_failed
                    || (not (q.recent_failure_backoff_seconds =ℕ 0) && within_backoff q k))))))

mem-stripped_lines :
    (k : String) (keys : List String)
    → (k == "") ≡ false
    → mem k (stripped_lines keys) ≡ holds k keys
unfolding stripped_lines mem holds
mem-stripped_lines k [] h = refl
mem-stripped_lines k (raw ∷ keys) h =
    ground (arith, eq_iff (strip raw) k, mem-stripped_lines k keys h)

failed-telegram_failed :
    (q : Query) (k : String)
    → recently_failed q k
      ≡ (telegram_failed q k && (not (q.recent_failure_backoff_seconds =ℕ 0) && within_backoff q k))
unfolding recently_failed is_false
failed-telegram_failed q k = elim (Option-cases (probe_of q k).tg_ok) [
  | inl missing ↦ ground arith
  | inr (true, good) ↦ ground arith
  | inr (false, failed) ↦ ground arith
]

bad-telegram_failed :
    (q : Query) (k : String)
    → (not (q.service == "youtube") && leb (score_of q k) 1) ≡ telegram_failed q k
unfolding score_of by_answer
bad-telegram_failed q k = elim (Option-cases (probe_of q k).tg_ok) [
  | inl missing ↦ ground arith
  | inr (true, good) ↦ ground arith
  | inr (false, failed) ↦ ground arith
]

admitted-wanted :
    (q : Query) (current : String × String) (p k : String)
    → admitted q current p k ≡ wanted q current p k
unfolding admitted
admitted-wanted q current p k = ground (
  arith,
  mem-stripped_lines k q.exclude_keys,
  failed-telegram_failed q k,
  bad-telegram_failed q k,
)

-- The protocol is one of those asked for, which are all where none is named, and the pools have it.
abbrev pub asked_for : Pools → List String → String → Bool
asked_for pools [] p = mem p protocol_display_order && has pools p
asked_for pools (x ∷ protocols) p = mem p (x ∷ protocols) && has pools p

mem-keep :
    (f : String → Bool) (p : String) (xs : List String) → mem p (keep f xs) ≡ (mem p xs && f p)
unfolding mem
mem-keep f p [] = refl
mem-keep f p (x ∷ xs) = elim (Bool-cases (x == p)) [
  | inl same ↦ (let at = (eq_iff x p).0 same in ground (arith, mem-keep f p xs, ap f at))
  | inr other ↦ ground (arith, mem-keep f p xs)
]

mem-protocol_order :
    (pools : Pools) (protocols : List String) (p : String)
    → mem p (protocol_order pools protocols) ≡ asked_for pools protocols p
unfolding protocol_order or_all
mem-protocol_order pools [] p = mem-keep (has pools) p protocol_display_order
mem-protocol_order pools (x ∷ protocols) p = mem-keep (has pools) p (x ∷ protocols)

keys-map : (cs : List Scored) → keys_of cs ≡ map (λ c. (c.proto, c.key)) cs
unfolding keys_of
keys-map [] = refl
keys-map (c ∷ cs) = ground (arith, keys-map cs)

-- `failover_candidates` gives a key of a protocol exactly if that protocol is asked for and known, its
-- normalized pool holds the key, and the key is wanted: it is not blank, not the key in use and not
-- excluded; and its last check of Telegram did not fail, unless the service is YouTube or a route, or failed
-- keys are not skipped and the failure is no longer within the backoff. Each candidate comes before those that
-- follow it: for YouTube by its protocol's place, the higher score, the later check and its place in the
-- pool; otherwise by the higher score, the check, the later one first unless the score is at most 1, its
-- protocol's place and its place in the pool. The score and the check are those of its key, and the places
-- are those of its protocol among the protocols searched, and of its key in the normalized pool.
pub failover_candidates_lem :
    (q : Query) (pools : Pools) (current_proto current_key : String) (protocols : List String)
    (p k : String)
    → let ps = normalize_key_pools pools in
      let cs = ranked q pools current_proto current_key protocols in
      (failover_candidates q pools current_proto current_key protocols
        ≡ map (λ c. (c.proto, c.key)) cs)
      × (mem_pair p k (map (λ c. (c.proto, c.key)) cs) ≡ (
          asked_for ps protocols p
          && (holds k (pool ps p) && wanted q (strip current_proto, strip current_key) p k)))
      × Ordered q cs
      × All (Placed q ps (searched ps (strip current_proto) protocols) 0) cs
unfolding failover_candidates ranked
failover_candidates_lem q pools current_proto current_key protocols p k =
    let ps = normalize_key_pools pools in
    let proto = strip current_proto in
    let protos = priority proto (protocol_order ps protocols) in
    let cs = from_protocols q (proto, strip current_key) ps 0 protos in
    let (ordered, placed) = ranked-Ordered q pools current_proto current_key protocols in
    (
      keys-map (sort_candidates q cs),
      ap (mem_pair p k) (sym (keys-map (sort_candidates q cs)))
          ∙ ground (
            arith,
            mem_pair-sort_candidates q p k cs,
            mem_pair-from_protocols q (proto, strip current_key) p k ps 0 protos,
            mem-priority p proto (protocol_order ps protocols),
            mem-protocol_order ps protocols p,
            admitted-wanted q (proto, strip current_key) p k,
          ),
      ordered,
      placed,
    )
