-- ===== src/Failover/Streak.antt =====
-- A candidate is looked for only after three failing checks in a row.
use bypass_keenetic.Prelude.{
  ℕ, suc, ◌+◌, ◌≤◌, Bool, true, false, ◌&&◌, Option, none, some, List, [], ◌∷◌, String, ◌==◌,
  if◌then◌else◌, Result, ok, raise, ◌≡◌, refl, arith, eq_iff,
}
use bypass_keenetic.Failover.Watchdog.{
  State, empty_state, Evidence, verdict, service, is_false, Call, checked, selected, validated,
  CallError, Tick, differs, for_identity, count_failure, try_apply, try_valid, try_candidate,
  on_evidence, required_route_recovery,
}
use bypass_keenetic.Failover.Cooldown.{selects}

-- What the checks gave, the last one first, each with the identity it was made for.
abbrev pub Log : Type 0
Log = List (String × Result CallError Evidence)

-- The failing checks of a service in a row, for one identity; a check that raised does not count.
unfoldable pub streak : String → String → Log → ℕ
streak id svc [] = 0
streak id svc ((j, raise e) ∷ log) = let n = streak id svc log in if j == id then n else 0
streak id svc ((j, ok ev) ∷ log) =
    let n = streak id svc log in
    if j == id && (is_false (verdict ev) && service ev == svc) then suc n else 0

-- What the log lets the state count.
unfoldable limit : Option String → Option String → Log → ℕ
limit none svc log = 0
limit (some id) none log = 0
limit (some id) (some svc) log = streak id svc log

-- No more failures are counted than the log has.
abbrev Counted : State → Log → Type 0
Counted s log = s.failures ≤ limit s.identity s.failure_service log

same_text : (o : Option String) (x : String) → differs o x ≡ false → o ≡ some x
unfolding differs
same_text none x h = ground arith
same_text (some y) x h = ground (arith, eq_iff y x)

for_identity-identity : (id : String) (s : State) → (for_identity id s).identity ≡ some id
unfolding for_identity
for_identity-identity id s = ground (arith, same_text s.identity id)

identity-Counted :
    (id : String) (s : State) (log : Log) → Counted s log → Counted (for_identity id s) log
unfolding for_identity
identity-Counted id s log h = ground arith

count-Counted :
    (now : ℕ) (id : String) (s : State) (log : Log) (ev : Evidence)
    → s.identity ≡ some id
    → Counted s log
    → is_false (verdict ev) ≡ true
    → Counted (count_failure now (service ev) s) ((id, ok ev) ∷ log)
unfolding count_failure streak limit
count-Counted now id s log ev i h f = ground (
  arith,
  eq_iff id id,
  eq_iff (service ev) (service ev),
  same_text s.failure_service (service ev),
)

raised_kept :
    (id : String) (e : CallError) (s : State) (log : Log)
    → s.identity ≡ some id
    → Counted s log
    → Counted s ((id, raise e) ∷ log)
unfolding limit streak
raised_kept id e s log i h = ground (arith, eq_iff id id)

-- The service that a check was about.
unfoldable pub reported : Result CallError Evidence → String
unfolding service
reported (raise e) = ""
reported (ok ev) = service ev

-- After a failing check the count is that of its service.
counted_limit :
    (now : ℕ) (id : String) (s : State) (log : Log) (ev : Evidence)
    → s.identity ≡ some id
    → limit
        (count_failure now (service ev) s).identity
        (count_failure now (service ev) s).failure_service
        log
      ≡ streak id (service ev) log
unfolding count_failure limit
counted_limit now id s log ev i = ground (arith, same_text s.failure_service (service ev))

module _ {C : Type 0} where
  -- The log after a step.
  unfoldable pub noted : Tick C → List (Call C) → Log → Log
  noted t [] log = log
  noted t (c ∷ calls) log = (t.key_identity, t.check_active) ∷ log

  -- The calls of the watchdog one after another, with the log.
  unfoldable pub run : List (Tick C) → State → Log → State × Log
  run [] s log = (s, log)
  run (t ∷ ts) s log =
      let (s', calls, r) = required_route_recovery t s in run ts s' (noted t calls log)

  apply-Counted :
      (c : C) (r : Result CallError (Unit {0})) (calls : List (Call C)) (s : State) (log : Log)
      → Counted s log
      → Counted (try_apply c r calls s).0 log
  unfolding try_apply
  apply-Counted c (raise e) calls s log h = h
  apply-Counted c (ok u) calls s log h = omega arith

  valid-Counted :
      (t : Tick C) (c : C) (r : Result CallError Bool) (s : State) (log : Log)
      → Counted s log
      → Counted (try_valid t c r s).0 log
  unfolding try_valid
  valid-Counted t c (raise e) s log h = h
  valid-Counted t c (ok false) s log h = h
  valid-Counted t c (ok true) s log h =
      apply-Counted c (t.apply_candidate c) (checked ∷ selected ∷ validated c ∷ []) s log h

  candidate-Counted :
      (t : Tick C) (r : Result CallError (Option C)) (s : State) (log : Log)
      → Counted s log
      → Counted (try_candidate t r s).0 log
  unfolding try_candidate
  candidate-Counted t (raise e) s log h = h
  candidate-Counted t (ok none) s log h = h
  candidate-Counted t (ok (some c)) s log h = valid-Counted t c (t.still_valid c) s log h

  evidence-Counted :
      (t : Tick C) (r : Result CallError Evidence) (s : State) (log : Log)
      → s.identity ≡ some t.key_identity
      → Counted s log
      → Counted (on_evidence t r s).0 ((t.key_identity, r) ∷ log)
  unfolding on_evidence
  evidence-Counted t (raise e) s log i h = raised_kept t.key_identity e s log i h
  evidence-Counted t (ok ev) s log i h =
      let s' = count_failure t.now (service ev) s in
      let until = t.now + t.cooldown in
      let held = record s' { retry_at = until; cooldown_until = until } in
      ground (
        arith,
        count-Counted t.now t.key_identity s log ev i h,
        candidate-Counted t t.select_candidate held ((t.key_identity, ok ev) ∷ log),
      )

  evidence-selects :
      (t : Tick C) (r : Result CallError Evidence) (s : State) (log : Log)
      → s.identity ≡ some t.key_identity
      → Counted s log
      → selects (on_evidence t r s).1 ≡ true
      → 3 ≤ streak t.key_identity (reported r) ((t.key_identity, r) ∷ log)
  unfolding on_evidence selects reported
  evidence-selects t (raise e) s log i h c = ground arith
  evidence-selects t (ok ev) s log i h c = ground (
    arith,
    count-Counted t.now t.key_identity s log ev i h,
    counted_limit t.now t.key_identity s ((t.key_identity, ok ev) ∷ log) ev i,
  )

  noted-apply :
      (u : Tick C) (c : C) (r : Result CallError (Unit {0})) (k : Call C) (calls : List (Call C))
      (s : State) (log : Log)
      → noted u (try_apply c r (k ∷ calls) s).1 log ≡ (u.key_identity, u.check_active) ∷ log
  unfolding try_apply noted
  noted-apply u c (raise e) k calls s log = refl
  noted-apply u c (ok x) k calls s log = refl

  noted-valid :
      (t : Tick C) (c : C) (r : Result CallError Bool) (s : State) (log : Log)
      → noted t (try_valid t c r s).1 log ≡ (t.key_identity, t.check_active) ∷ log
  unfolding try_valid noted
  noted-valid t c (raise e) s log = refl
  noted-valid t c (ok false) s log = refl
  noted-valid t c (ok true) s log =
      noted-apply t c (t.apply_candidate c) checked (selected ∷ validated c ∷ []) s log

  noted-candidate :
      (t : Tick C) (r : Result CallError (Option C)) (s : State) (log : Log)
      → noted t (try_candidate t r s).1 log ≡ (t.key_identity, t.check_active) ∷ log
  unfolding try_candidate noted
  noted-candidate t (raise e) s log = refl
  noted-candidate t (ok none) s log = refl
  noted-candidate t (ok (some c)) s log = noted-valid t c (t.still_valid c) s log

  -- Every answer of a check is in the log.
  noted-evidence :
      (t : Tick C) (r : Result CallError Evidence) (s : State) (log : Log)
      → noted t (on_evidence t r s).1 log ≡ (t.key_identity, t.check_active) ∷ log
  unfolding on_evidence noted
  noted-evidence t (raise e) s log = refl
  noted-evidence t (ok ev) s log =
      let until = t.now + t.cooldown in
      let s' = count_failure t.now (service ev) s in
      ground (
        arith,
        noted-candidate t t.select_candidate
            (record s' { retry_at = until; cooldown_until = until }) log,
      )

  step-Counted :
      (t : Tick C) (s : State) (log : Log)
      → Counted s log
      → Counted (required_route_recovery t s).0 (noted t (required_route_recovery t s).1 log)
  unfolding required_route_recovery noted
  step-Counted t s log h =
      let s' = record (for_identity t.key_identity s) { retry_at = t.now + 60 } in
      ground (
        arith,
        identity-Counted t.key_identity s log h,
        noted-evidence t t.check_active s' log,
        evidence-Counted t t.check_active s' log (for_identity-identity t.key_identity s),
      )

  step-selects :
      (t : Tick C) (s : State) (log : Log)
      → Counted s log
      → selects (required_route_recovery t s).1 ≡ true
      → 3 ≤ streak t.key_identity (reported t.check_active) ((t.key_identity, t.check_active) ∷ log)
  unfolding required_route_recovery selects
  step-selects t s log h c =
      let s' = record (for_identity t.key_identity s) { retry_at = t.now + 60 } in
      ground (
        arith,
        identity-Counted t.key_identity s log h,
        evidence-selects t t.check_active s' log (for_identity-identity t.key_identity s),
      )

  run-Counted :
      (ts : List (Tick C)) (s : State) (log : Log)
      → Counted s log
      → Counted (run ts s log).0 (run ts s log).1
  unfolding run
  run-Counted [] s log h = h
  run-Counted (t ∷ ts) s log h =
      run-Counted ts (required_route_recovery t s).0 (noted t (required_route_recovery t s).1 log)
        (step-Counted t s log h)

  -- After any calls of the watchdog from the empty state, a call of `required_route_recovery` looks
  -- for a candidate only if its own check and the two before it that gave an answer for the same
  -- identity failed for the same service: no answer that is unknown or good, or about another
  -- service or identity, came between them.
  pub selection-run :
      (ts : List (Tick C)) (t : Tick C)
      → selects (required_route_recovery t (run ts empty_state []).0).1 ≡ true
      → 3
        ≤ streak t.key_identity
            (reported t.check_active)
            ((t.key_identity, t.check_active) ∷ (run ts empty_state []).1)
  selection-run ts t h =
      step-selects t (run ts empty_state []).0 (run ts empty_state []).1
        (run-Counted ts empty_state [] (omega arith)) h
