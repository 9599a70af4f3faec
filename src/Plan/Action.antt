-- ===== src/Plan/Action.antt =====
-- `plan_proxy_apply`. Times are natural numbers of a monotonic clock; `none` stands for an argument that
-- is no finite number, no non-negative `int`, no text, or neither True nor False.
use bypass_keenetic.Prelude.{
  ℕ, ◌-◌, Bool, true, false, ◌&&◌, ◌||◌, not, Option, none, some, String, ◌==◌, if◌then◌else◌, leb,
  ◌=ℕ◌,
}
use bypass_keenetic.Plan.Json.{Value}
use bypass_keenetic.Plan.Config.{config_fingerprint}
use bypass_keenetic.Plan.Change.{
  ChangeKind, unchanged, outbound, routing, outbound_and_routing, core, classify_config_change,
}

pub data PlanAction : Type 0 where
  noop verify_runtime recover_runtime prepare_outbound prepare_routing prepare_transaction :
      PlanAction
  restart_required : PlanAction

pub data Reason : Type 0 where
  process_not_running runtime_unattested runtime_identity_changed snapshot_unattested : Reason
  health_not_fresh data_plane_failed health_unknown confirmed_snapshot : Reason

pub record RuntimeEvidence : Type 0 where
  pub applied_fingerprint : String
  pub verified_fingerprint : String
  pub process_identity : String
  pub generation : Option ℕ
  pub checked_at : Option ℕ
  pub healthy : Option Bool

pub record ApplyPlan : Type 0 where
  pub change : ChangeKind
  pub action : PlanAction
  pub reason : Reason

-- The keyword arguments.
pub record Runtime : Type 0 where
  pub evidence : Option RuntimeEvidence
  pub process_identity : Option String
  pub generation : Option ℕ
  pub process_running : Option Bool
  pub now : Option ℕ
  pub max_health_age : Option ℕ

-- `actions[change]`
unfoldable pub action_for : ChangeKind → PlanAction
action_for unchanged = noop
action_for outbound = prepare_outbound
action_for routing = prepare_routing
action_for outbound_and_routing = prepare_transaction
action_for core = restart_required

unfoldable pub verify : ChangeKind → Reason → ApplyPlan
verify change reason = record { change = change; action = verify_runtime; reason = reason }

-- The test of the identity and the generation.
unfoldable pub same_process : Runtime → RuntimeEvidence → Bool
same_process r e = elim r.process_identity [
  | none ↦ false
  | some identity ↦
      (not (identity == "")
        && (e.process_identity == identity && elim r.generation [
          | none ↦ false
          | some g ↦ elim e.generation [ none ↦ false | some h ↦ h =ℕ g ]
        ]))
]

-- `0 <= now - checked_at <= max_health_age`
unfoldable pub is_fresh : ℕ → ℕ → Option ℕ → Bool
is_fresh now max_age none = false
is_fresh now max_age (some at) = leb at now && leb (now - at) max_age

-- What follows the test of the fingerprints.
unfoldable pub by_health : ChangeKind → Bool → Option Bool → ApplyPlan
by_health change false healthy = verify change health_not_fresh
by_health change true (some false) = record {
  change = change;
  action = recover_runtime;
  reason = data_plane_failed;
}
by_health change true none = verify change health_unknown
by_health change true (some true) = record {
  change = change;
  action = action_for change;
  reason = confirmed_snapshot;
}

unfoldable pub with_evidence : ChangeKind → String → Runtime → ℕ → ℕ → RuntimeEvidence → ApplyPlan
with_evidence change fingerprint r now max_age e =
    if not (same_process r e)
    then verify change runtime_identity_changed
    else if not (e.applied_fingerprint == fingerprint)
        || not (e.verified_fingerprint == fingerprint)
    then verify change snapshot_unattested
    else by_health change (is_fresh now max_age e.checked_at) e.healthy

unfoldable pub plan_for : ChangeKind → String → Runtime → ℕ → ℕ → ApplyPlan
plan_for change fingerprint r now max_age = elim r.process_running [
  | some false ↦ record { change = change; action = recover_runtime; reason = process_not_running }
  | some true ↦ elim r.evidence [
    | none ↦ verify change runtime_unattested
    | some e ↦ with_evidence change fingerprint r now max_age e
  ]
  | none ↦ verify change runtime_unattested
]

module _ (digest : Value → String) where
  -- `none` is a `ValueError`.
  unfoldable pub plan_proxy_apply : Value → Value → Runtime → Option ApplyPlan
  plan_proxy_apply current desired r = elim r.now [
    | none ↦ none
    | some now ↦ elim r.max_health_age [
      | none ↦ none
      | some max_age ↦ elim (classify_config_change digest current desired) [
        | none ↦ none
        | some change ↦ elim (config_fingerprint digest current) [
          | none ↦ none
          | some fingerprint ↦ some (plan_for change fingerprint r now max_age)
        ]
      ]
    ]
  ]
