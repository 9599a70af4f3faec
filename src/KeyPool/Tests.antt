-- ===== src/KeyPool/Tests.antt =====
-- The pools of a small router, and the theorems at them.
use bypass_keenetic.Prelude.{
  true, false, map, All, any, none, List, ◌&&◌, Option, some, [], ◌∷◌, String, ◌==◌, if◌then◌else◌,
  ◌≡◌, refl, ◌⊎◌, inl, ok,
}
use bypass_keenetic.Prelude.Dict
use bypass_keenetic.Prelude.Text.{strip}
use bypass_keenetic.KeyPool.Catalog.{protocol_for_scheme}
use bypass_keenetic.KeyPool.Keys.{dedupe_key_list}
use bypass_keenetic.KeyPool.Pools.{Pools, pool, has, normalize_key_pools}
use bypass_keenetic.KeyPool.Repair.{
  place_all, place_keys, place_key, target_of, key_protocol_for_pool, repair_key_pool_protocols,
}
use bypass_keenetic.KeyPool.Subscription.{classify_subscription_keys}
use bypass_keenetic.KeyPool.Classification.{refused, keys_for, classify_subscription_keys_lem}
use bypass_keenetic.KeyPool.Candidates.Probe.{Query}
use bypass_keenetic.KeyPool.Candidates.Choice.{ranked, failover_candidates}
use bypass_keenetic.KeyPool.Candidates.Order.{mem_pair}
use bypass_keenetic.KeyPool.Candidates.Ranking.{Ordered, Placed, searched}
use bypass_keenetic.KeyPool.Candidates.Filter.{asked_for, wanted, failover_candidates_lem}
use bypass_keenetic.KeyPool.Candidates.Filter.{holds as holds_key}
use bypass_keenetic.KeyPool.Storage.{unreadable, holds, Store, fine, load_key_pools, save_key_pools}
use bypass_keenetic.KeyPool.Recovery.{load-save_damaged, saved}

-- The scheme of the keys used here.
abbrev scheme : String → Option String
scheme key = if key == "vmess://a" then some "vmess" else some "vless"

-- A key of vmess stands under vless, with a blank line.
abbrev pools : Pools
pools = ("vless", "vmess://a" ∷ " vless://b" ∷ "" ∷ "vless://b" ∷ []) ∷ []

abbrev store : Store
store = record { primary = holds pools; last_good = unreadable }

repaired_vmess : pool (repair_key_pool_protocols scheme pools).repaired "vmess" ≡ "vmess://a" ∷ []
unfolding repair_key_pool_protocols pool place_all place_keys normalize_key_pools dedupe_key_list
    strip place_key target_of has key_protocol_for_pool protocol_for_scheme Dict.put
repaired_vmess = refl

load-save_damaged_example :
    let after = save_key_pools scheme fine fine pools store in
    let repaired = (repair_key_pool_protocols scheme pools).repaired in
    (after.1 ≡ ok repaired)
    × (pool (saved scheme pools) "vmess" ≡ pool repaired "vmess")
    × (load_key_pools after.0 ≡ ok (saved scheme pools))
    × (load_key_pools (record after.0 { primary = unreadable }) ≡ ok (saved scheme pools))
    × (load_key_pools (record after.0 { last_good = unreadable }) ≡ ok (saved scheme pools))
load-save_damaged_example = load-save_damaged scheme pools store unreadable "vmess" (inl refl)

-- A provider that answers with an error in place of keys.
abbrev split_url : String → Option (String × String)
split_url key =
    some (if key == "trojan://x#HWID required" then ("trojan", "hwid required") else ("vless", ""))

abbrev answer : List String
answer = "vless://b " ∷ "" ∷ "trojan://x#HWID required" ∷ []

classify_subscription_keys_example :
    ((any (refused split_url some (λ t. t) (λ t. t)) answer ≡ true)
      × (classify_subscription_keys split_url some (λ t. t) (λ t. t) answer ≡ none))
    ⊎ ((any (refused split_url some (λ t. t) (λ t. t)) answer ≡ false)
        × ((next : Pools) × (classify_subscription_keys split_url some (λ t. t) (λ t. t) answer
              ≡ some next)
            × (pool next "vless" ≡ keys_for split_url some (λ t. t) (λ t. t) "vless" answer)))
classify_subscription_keys_example =
    classify_subscription_keys_lem split_url some (λ t. t) (λ t. t) "vless" answer

-- One key of vless failed a minute ago.
abbrev query : Query
query = record {
  service = "telegram";
  key_probe_cache =
      (
        "vless://b",
        record {
          ts = 1000;
          tg_ok = some false;
          yt_ok = none;
          yt_score = none;
          yt_stability = "";
          yt_error_rate = record { is_positive = false; times_100 = 0; times_40 = 0 };
        },
      )
      ∷ [];
  hash_key = some (λ key. key);
  exclude_keys = [];
  recent_failure_backoff_seconds = 300;
  skip_failed = false;
  now = 1060;
}

failover_candidates_example :
    let ps = normalize_key_pools pools in
    let cs = ranked query pools "vless" "vmess://a" [] in
    (failover_candidates query pools "vless" "vmess://a" [] ≡ map (λ c. (c.proto, c.key)) cs)
    × (mem_pair "vless" "vless://b" (map (λ c. (c.proto, c.key)) cs) ≡ (
        asked_for ps [] "vless"
        && (holds_key "vless://b" (pool ps "vless")
            && wanted query (strip "vless", strip "vmess://a") "vless" "vless://b")))
    × Ordered query cs
    × All (Placed query ps (searched ps (strip "vless") []) 0) cs
failover_candidates_example =
    failover_candidates_lem query pools "vless" "vmess://a" [] "vless" "vless://b"
