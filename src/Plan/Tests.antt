-- ===== src/Plan/Tests.antt =====
-- Concrete runs of the plan and of the store.
use bypass_keenetic.Prelude.{ℕ, true, none, some, String, List, [], ◌∷◌, ◌≡◌, ◌↔◌, refl, arith}
use bypass_keenetic.Prelude.Dict
use bypass_keenetic.Prelude.Text.{strip}
use bypass_keenetic.KeyPool.Catalog.{mem}
use bypass_keenetic.Plan.Json.{
  Value, text, arr, obj, no_entry, entry, no_pair, pair, json_value, json_entries, json_pairs,
  canonical, canonical_entries, canonical_pairs, insert_field, key_le, same, same_entries,
  same_pairs, same_bool, get_field, without_keys,
}
use bypass_keenetic.Plan.Config.{
  text_field, list_field, dict_field, valid_entries, no_entries, valid_section, all_dicts,
  valid_rules, valid_routing, validate_config, config_fingerprint,
}
use bypass_keenetic.Plan.Change.{
  outbound, fields_of, outbounds, routing_of, core_of, routing_base, tags_of, same_texts, differ,
  kind_of_change, classify_config_change,
}
use bypass_keenetic.Plan.Action.{
  prepare_outbound, verify_runtime, confirmed_snapshot, health_not_fresh, RuntimeEvidence,
  ApplyPlan, Runtime, action_for, verify, same_process, is_fresh, by_health, with_evidence,
  plan_for, plan_proxy_apply,
}
use bypass_keenetic.Plan.Receipts.{
  Health, Attested, read_state, atomic_json, Process, is_text, is_count, record_loaded, put_health,
  record_health, evidence,
}
use bypass_keenetic.Plan.Difference.{value_at}
use bypass_keenetic.Plan.Untouched.{touched, classify_config_change-touched}
use bypass_keenetic.Plan.Shape.{Accepted}
use bypass_keenetic.Plan.Accept.{validate_config-Accepted}
use bypass_keenetic.Plan.History.{StoreCall, loaded, checked, step, replay, LoadIn, CheckIn}
use bypass_keenetic.Plan.Composition.{plan_proxy_apply-replay}

abbrev server : String → Value
server address = obj (
    pair "tag" (text "proxy")
      (pair "protocol" (text "vless") (pair "address" (text address) no_pair)))

abbrev config : String → Value
config address = obj (
    pair "outbounds" (arr (entry (server address) no_entry))
      (pair "inbounds" (arr no_entry) (pair "routing" (obj no_pair) no_pair)))

-- A digest for the tests: the address of the one server.
abbrev address_of : Value → String
address_of v = elim (list_field "outbounds" (fields_of v)) [
  | none ↦ ""
  | some no_entry ↦ ""
  | some (entry w vs) ↦ elim (text_field "address" (fields_of w)) [ none ↦ "" | some t ↦ t ]
]

abbrev process : Process
process = record { identity = some "712"; generation = some 3; observed = some "unit" }

abbrev calls : List StoreCall
calls =
    checked true "vless" (config "one") process (some (record { checked_at = 95; healthy = true }))
    ∷ loaded true (config "one") process
    ∷ []

abbrev attested : RuntimeEvidence
attested = record {
  applied_fingerprint = "one";
  verified_fingerprint = "one";
  process_identity = "712";
  generation = some 3;
  checked_at = some 95;
  healthy = some true;
}

abbrev runtime : Runtime
runtime = record {
  evidence = evidence "vless" "unit" (replay address_of calls);
  process_identity = some "712";
  generation = some 3;
  process_running = some true;
  now = some 100;
  max_health_age = some 30;
}

abbrev planned : ApplyPlan
planned = record { change = outbound; action = prepare_outbound; reason = confirmed_snapshot }

prepares : plan_proxy_apply address_of (config "one") (config "two") runtime ≡ some planned
unfolding replay step record_loaded record_health put_health read_state atomic_json is_text is_count
    evidence config_fingerprint validate_config valid_section valid_entries no_entries list_field
    dict_field get_field json_value json_entries json_pairs text_field valid_routing valid_rules
    all_dicts canonical canonical_entries canonical_pairs insert_field key_le fields_of Dict.put
    Dict.get mem strip plan_proxy_apply classify_config_change kind_of_change outbounds routing_of
    core_of routing_base tags_of same_texts differ same same_entries same_pairs same_bool
    without_keys plan_for with_evidence same_process is_fresh by_health action_for verify
prepares = refl

waits :
    plan_proxy_apply address_of (config "one") (config "two") (record runtime { now = some 126 })
    ≡ some (record { change = outbound; action = verify_runtime; reason = health_not_fresh })
unfolding replay step record_loaded record_health put_health read_state atomic_json is_text is_count
    evidence config_fingerprint validate_config valid_section valid_entries no_entries list_field
    dict_field get_field json_value json_entries json_pairs text_field valid_routing valid_rules
    all_dicts canonical canonical_entries canonical_pairs insert_field key_le fields_of Dict.put
    Dict.get mem strip plan_proxy_apply classify_config_change kind_of_change outbounds routing_of
    core_of routing_base tags_of same_texts differ same same_entries same_pairs same_bool
    without_keys plan_for with_evidence same_process is_fresh by_health action_for verify
waits = refl

plan_proxy_apply-replay_example :
    (s : Attested) × (h : Health) × (now age : ℕ) × (config_fingerprint address_of (config "one")
      ≡ some s.applied_fingerprint)
    × (some true ≡ some true)
    × (some "712" ≡ some s.process_identity)
    × (some 3 ≡ some s.generation)
    × (s.observed_fingerprint ≡ "unit")
    × LoadIn address_of calls s
    × CheckIn address_of calls "vless" h s
    × (h.healthy ≡ true)
    × (some 100 ≡ some now)
    × (some 30 ≡ some age)
    × (is_fresh now age (some h.checked_at) ≡ true)
    × (classify_config_change address_of (config "one") (config "two") ≡ some outbound)
    × (prepare_outbound ≡ action_for outbound)
plan_proxy_apply-replay_example =
    plan_proxy_apply-replay address_of (config "one") (config "two") runtime planned calls "vless"
      "unit" refl prepares refl

classified : classify_config_change address_of (config "one") (config "two") ≡ some outbound
unfolding replay step record_loaded record_health put_health read_state atomic_json is_text is_count
    evidence config_fingerprint validate_config valid_section valid_entries no_entries list_field
    dict_field get_field json_value json_entries json_pairs text_field valid_routing valid_rules
    all_dicts canonical canonical_entries canonical_pairs insert_field key_le fields_of Dict.put
    Dict.get mem strip plan_proxy_apply classify_config_change kind_of_change outbounds routing_of
    core_of routing_base tags_of same_texts differ same same_entries same_pairs same_bool
    without_keys plan_for with_evidence same_process is_fresh by_health action_for verify
classified = refl

tell_apart :
    address_of (canonical (config "one")) ≡ address_of (canonical (config "two"))
    → canonical (config "one") ≡ canonical (config "two")
unfolding replay step record_loaded record_health put_health read_state atomic_json is_text is_count
    evidence config_fingerprint validate_config valid_section valid_entries no_entries list_field
    dict_field get_field json_value json_entries json_pairs text_field valid_routing valid_rules
    all_dicts canonical canonical_entries canonical_pairs insert_field key_le fields_of Dict.put
    Dict.get mem strip
tell_apart e = ground arith

classify_config_change-touched_example :
    value_at "inbounds" (config "one") ≡ value_at "inbounds" (config "two")
unfolding touched
classify_config_change-touched_example =
    classify_config_change-touched address_of (config "one") (config "two") outbound "inbounds"
      tell_apart classified refl

validate_config-Accepted_example : (validate_config (config "one") ≡ true) ↔ Accepted (config "one")
validate_config-Accepted_example = validate_config-Accepted (config "one")
