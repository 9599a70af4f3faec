-- ===== src/Plan/Composition.antt =====
-- The plan on the evidence of the store: a plan that acts has a controlled load and a good check behind it.
use bypass_keenetic.Prelude.{
  ℕ, true, Option, none, some, String, List, ◌≡◌, refl, arith, eq_iff, Option-cases, inl, inr, ap,
  sym, subst, ◌∙◌,
}
use bypass_keenetic.Prelude.Dict
use bypass_keenetic.Plan.Json.{Value}
use bypass_keenetic.Plan.Config.{config_fingerprint}
use bypass_keenetic.Plan.Change.{classify_config_change}
use bypass_keenetic.Plan.Action.{
  RuntimeEvidence, ApplyPlan, Runtime, same_process, is_fresh, action_for, plan_proxy_apply,
}
use bypass_keenetic.Plan.Receipts.{Health, Attested, read_state, evidence}
use bypass_keenetic.Plan.Confirmation.{acts, plan_proxy_apply-Confirmed}
use bypass_keenetic.Plan.History.{StoreCall, replay, LoadIn, CheckIn, replay-Sound}

-- Evidence of a good check comes from a stored state with that check.
good_evidence :
    (protocol observed : String) (file : Option Attested) (e : RuntimeEvidence)
    → evidence protocol observed file ≡ some e
    → e.healthy ≡ some true
    → (s : Attested) × (h : Health) × (file ≡ some s)
      × (Dict.get protocol s.health ≡ some h)
      × (s.observed_fingerprint ≡ observed)
      × (s.applied_fingerprint ≡ e.applied_fingerprint)
      × (s.process_identity ≡ e.process_identity)
      × (e.generation ≡ some s.generation)
      × (e.checked_at ≡ some h.checked_at)
      × (h.healthy ≡ true)
unfolding evidence read_state
good_evidence protocol observed none e g b = ground arith
good_evidence protocol observed (some s) e g b = elim (Option-cases (Dict.get protocol s.health)) [
  | inl missing ↦ ground arith
  | inr (h, found) ↦ (
    s,
    h,
    refl,
    found,
    ground (arith, eq_iff s.observed_fingerprint observed),
    ground arith,
    ground arith,
    ground arith,
    ground arith,
    ground arith,
  )
]

same_sound :
    (r : Runtime) (e : RuntimeEvidence) (n : ℕ)
    → e.generation ≡ some n
    → same_process r e ≡ true
    → (r.process_identity ≡ some e.process_identity) × (r.generation ≡ some n)
unfolding same_process
same_sound r e n g h = elim (Option-cases r.process_identity) [
  | inl missing ↦ ground arith
  | inr (i, ei) ↦ elim (Option-cases r.generation) [
    | inl missing ↦ ground arith
    | inr (m, em) ↦ (ground (arith, eq_iff e.process_identity i), ground arith)
  ]
]

module _ (digest : Value → String) where
  -- `plan_proxy_apply` on what `AttestationStore.evidence` gives after any calls of the store: if the plan
  -- acts, rather than verify or recover, then the calls hold a controlled load of the current configuration by
  -- the running process and its generation, with the observed fingerprint asked for, and a good check of the
  -- protocol for that process and configuration, made at most `max_health_age` before now; no load was written
  -- after either; and the action is that of the kind of change.
  pub plan_proxy_apply-replay :
      (current desired : Value) (r : Runtime) (p : ApplyPlan) (calls : List StoreCall)
      (protocol observed : String)
      → r.evidence ≡ evidence protocol observed (replay digest calls)
      → plan_proxy_apply digest current desired r ≡ some p
      → acts p.action ≡ true
      → (s : Attested) × (h : Health) × (now age : ℕ) × (config_fingerprint digest current
          ≡ some s.applied_fingerprint)
        × (r.process_running ≡ some true)
        × (r.process_identity ≡ some s.process_identity)
        × (r.generation ≡ some s.generation)
        × (s.observed_fingerprint ≡ observed)
        × LoadIn digest calls s
        × CheckIn digest calls protocol h s
        × (h.healthy ≡ true)
        × (r.now ≡ some now)
        × (r.max_health_age ≡ some age)
        × (is_fresh now age (some h.checked_at) ≡ true)
        × (classify_config_change digest current desired ≡ some p.change)
        × (p.action ≡ action_for p.change)
  plan_proxy_apply-replay current desired r p calls protocol observed given planned act =
      let (e, fp, now, age, print, conf, n, m, fresh, kind, action) =
        plan_proxy_apply-Confirmed digest current desired r p planned act in
      let (s, h, file, found, seen, applied, process, generation, checked, good) =
        good_evidence protocol observed (replay digest calls) e (sym given ∙ conf.given)
          conf.good in
      let (load, checks) = replay-Sound digest calls s file in
      let (pi, pg) = same_sound r e s.generation generation conf.process in
      (
        s,
        h,
        now,
        age,
        print ∙ ap some (sym conf.applied ∙ sym applied),
        conf.running,
        pi ∙ ap some (sym process),
        pg,
        seen,
        load,
        checks protocol h found,
        good,
        n,
        m,
        subst (λ x. is_fresh now age x ≡ true) checked fresh,
        kind,
        action,
      )
