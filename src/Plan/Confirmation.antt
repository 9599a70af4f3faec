-- ===== src/Plan/Confirmation.antt =====
-- A plan acts on confirmed evidence only.
use bypass_keenetic.Prelude.{
  ℕ, Bool, true, false, Option, none, some, String, ◌≡◌, refl, arith, eq_iff, Option-cases, inl,
  inr, ap, ◌∙◌,
}
use bypass_keenetic.Plan.Json.{Value}
use bypass_keenetic.Plan.Config.{config_fingerprint}
use bypass_keenetic.Plan.Change.{ChangeKind, classify_config_change}
use bypass_keenetic.Plan.Action.{
  PlanAction, verify_runtime, recover_runtime, RuntimeEvidence, ApplyPlan, Runtime, action_for,
  verify, same_process, is_fresh, by_health, with_evidence, plan_for, plan_proxy_apply,
}

-- The plan says what to do with the desired configuration, and not to verify or to recover first.
abbrev pub acts : PlanAction → Bool
acts verify_runtime = false
acts recover_runtime = false
acts _ = true

-- The evidence is of the running process, its generation and this configuration, fresh and good.
pub record Confirmed (r : Runtime) (fingerprint : String) (e : RuntimeEvidence) : Type 0 where
  pub running : r.process_running ≡ some true
  pub given : r.evidence ≡ some e
  pub process : same_process r e ≡ true
  pub applied : e.applied_fingerprint ≡ fingerprint
  pub verified : e.verified_fingerprint ≡ fingerprint
  pub good : e.healthy ≡ some true

healthy_act :
    (change : ChangeKind) (fresh : Bool) (h : Option Bool)
    → acts (by_health change fresh h).action ≡ true
    → (fresh ≡ true) × (h ≡ some true) × ((by_health change fresh h).action ≡ action_for change)
unfolding by_health verify
healthy_act change false h a = ground arith
healthy_act change true (some false) a = ground arith
healthy_act change true (some true) a = (refl, refl, refl)
healthy_act change true none a = ground arith

evidence_act :
    (change : ChangeKind) (fp : String) (r : Runtime) (now age : ℕ) (e : RuntimeEvidence)
    → acts (with_evidence change fp r now age e).action ≡ true
    → (same_process r e ≡ true)
      × (e.applied_fingerprint ≡ fp)
      × (e.verified_fingerprint ≡ fp)
      × (is_fresh now age e.checked_at ≡ true)
      × (e.healthy ≡ some true)
      × ((with_evidence change fp r now age e).action ≡ action_for change)
unfolding with_evidence verify
evidence_act change fp r now age e a = ground (
  arith,
  eq_iff e.applied_fingerprint fp,
  eq_iff e.verified_fingerprint fp,
  healthy_act change (is_fresh now age e.checked_at) e.healthy,
)

plan_act :
    (change : ChangeKind) (fp : String) (r : Runtime) (now age : ℕ)
    → acts (plan_for change fp r now age).action ≡ true
    → (e : RuntimeEvidence) × Confirmed r fp e
      × (is_fresh now age e.checked_at ≡ true)
      × ((plan_for change fp r now age).action ≡ action_for change)
unfolding plan_for verify
plan_act change fp r now age a = elim (Option-cases r.process_running) [
  | inl none_known ↦ ground arith
  | inr (false, stopped) ↦ ground arith
  | inr (true, running) ↦ elim (Option-cases r.evidence) [
    | inl missing ↦ ground arith
    | inr (e, given) ↦
        (let (p, b, c, f, h, k) = evidence_act change fp r now age e (ground arith) in
          (
            e,
            record {
              running = running;
              given = given;
              process = p;
              applied = b;
              verified = c;
              good = h;
            },
            f,
            ground arith,
          ))
  ]
]

planned_change :
    (change : ChangeKind) (fp : String) (r : Runtime) (now age : ℕ)
    → (plan_for change fp r now age).change ≡ change
unfolding plan_for with_evidence by_health verify
planned_change change fp r now age = ground arith

module _ (digest : Value → String) where
  -- `plan_proxy_apply` acts, rather than verify or recover, only if the process runs, the evidence is that of
  -- this process and generation, its two fingerprints are that of the current configuration, and its check
  -- was good and is fresh; and then the action is that of the kind of change.
  pub plan_proxy_apply-Confirmed :
      (current desired : Value) (r : Runtime) (p : ApplyPlan)
      → plan_proxy_apply digest current desired r ≡ some p
      → acts p.action ≡ true
      → (e : RuntimeEvidence) × (fingerprint : String) × (now age : ℕ) × (config_fingerprint digest
            current
          ≡ some fingerprint)
        × Confirmed r fingerprint e
        × (r.now ≡ some now)
        × (r.max_health_age ≡ some age)
        × (is_fresh now age e.checked_at ≡ true)
        × (classify_config_change digest current desired ≡ some p.change)
        × (p.action ≡ action_for p.change)
  unfolding plan_proxy_apply
  plan_proxy_apply-Confirmed current desired r p h a = elim (Option-cases r.now) [
    | inl e ↦ ground arith
    | inr (now, n) ↦ elim (Option-cases r.max_health_age) [
      | inl e ↦ ground arith
      | inr (age, m) ↦ elim (Option-cases (classify_config_change digest current desired)) [
        | inl e ↦ ground arith
        | inr (change, c) ↦ elim (Option-cases (config_fingerprint digest current)) [
          | inl e ↦ ground arith
          | inr (fp, f) ↦
              (let made : plan_for change fp r now age ≡ p = ground arith in
                let (e, k, fresh, act) =
                  plan_act change fp r now age (ap (λ q. acts q.action) made ∙ a) in
                (
                  e,
                  fp,
                  now,
                  age,
                  f,
                  k,
                  n,
                  m,
                  fresh,
                  ground (arith, planned_change change fp r now age),
                  ground (arith, planned_change change fp r now age),
                ))
        ]
      ]
    ]
  ]
