-- ===== src/Failover/Cooldown.antt =====
-- A route whose recovery looked for a candidate is left alone until the cooldown has run out.
use bypass_keenetic.Prelude.{
  ℕ, ◌+◌, ◌<◌, ◌≤◌, Bool, true, false, Option, none, some, List, [], ◌∷◌, Result, ok, raise, ◌≡◌,
  refl, arith, All,
}
use bypass_keenetic.Failover.Watchdog.{
  State, Evidence, service, Call, checked, selected, validated, applied, CallError, Tick,
  for_identity, count_failure, try_apply, try_valid, try_candidate, on_evidence,
  required_route_recovery, watch,
}

-- Both times of the state have come to `h`.
abbrev Held : ℕ → State → Type 0
Held h s = (h ≤ s.retry_at) × (h ≤ s.cooldown_until)

module _ {C : Type 0} where
  -- The step looked for a candidate.
  unfoldable pub selects : List (Call C) → Bool
  selects [] = false
  selects (checked ∷ calls) = selects calls
  selects (selected ∷ calls) = true
  selects (validated c ∷ calls) = selects calls
  selects (applied c ∷ calls) = selects calls

  quiet_step :
      (h : ℕ) (t : Tick C) (s : State)
      → Held h s
      → t.now < h
      → Held h (required_route_recovery t s).0 × ((required_route_recovery t s).1 ≡ [])
  unfolding required_route_recovery for_identity
  quiet_step h t s (r, c) l = ground arith

  quiet_watch :
      (h : ℕ) (ts : List (Tick C)) (s : State)
      → Held h s
      → All (λ t. t.now < h) ts
      → (watch ts s).1 ≡ []
  unfolding watch
  quiet_watch h [] s held l = refl
  quiet_watch h (t ∷ ts) s held l =
      let (held', quiet) = quiet_step h t s held l.0 in
      rw quiet (quiet_watch h ts (required_route_recovery t s).0 held' l.1)

  apply-times :
      (c : C) (r : Result CallError (Unit {0})) (calls : List (Call C)) (s : State)
      → ((try_apply c r calls s).0.retry_at ≡ s.retry_at)
        × ((try_apply c r calls s).0.cooldown_until ≡ s.cooldown_until)
  unfolding try_apply
  apply-times c (raise e) calls s = (refl, refl)
  apply-times c (ok u) calls s = (refl, refl)

  valid-times :
      (t : Tick C) (c : C) (r : Result CallError Bool) (s : State)
      → ((try_valid t c r s).0.retry_at ≡ s.retry_at)
        × ((try_valid t c r s).0.cooldown_until ≡ s.cooldown_until)
  unfolding try_valid
  valid-times t c (raise e) s = (refl, refl)
  valid-times t c (ok false) s = (refl, refl)
  valid-times t c (ok true) s =
      apply-times c (t.apply_candidate c) (checked ∷ selected ∷ validated c ∷ []) s

  candidate-times :
      (t : Tick C) (r : Result CallError (Option C)) (s : State)
      → ((try_candidate t r s).0.retry_at ≡ s.retry_at)
        × ((try_candidate t r s).0.cooldown_until ≡ s.cooldown_until)
  unfolding try_candidate
  candidate-times t (raise e) s = (refl, refl)
  candidate-times t (ok none) s = (refl, refl)
  candidate-times t (ok (some c)) s = valid-times t c (t.still_valid c) s

  evidence-times :
      (t : Tick C) (r : Result CallError Evidence) (s : State)
      → selects (on_evidence t r s).1 ≡ true
      → Held (t.now + t.cooldown) (on_evidence t r s).0
  unfolding on_evidence selects
  evidence-times t (raise e) s h = ground arith
  evidence-times t (ok ev) s h =
      let until = t.now + t.cooldown in
      let s' = count_failure t.now (service ev) s in
      ground (
        arith,
        candidate-times t t.select_candidate
            (record s' { retry_at = until; cooldown_until = until }),
      )

  selection-times :
      (t : Tick C) (s : State)
      → selects (required_route_recovery t s).1 ≡ true
      → Held (t.now + t.cooldown) (required_route_recovery t s).0
  unfolding required_route_recovery selects
  selection-times t s h =
      let s' = for_identity t.key_identity s in
      ground (arith, evidence-times t t.check_active (record s' { retry_at = t.now + 60 }))

  -- After a call of `required_route_recovery` that looked for a candidate, whatever came of it, the
  -- calls that follow before the cooldown has run out make no check, look for no candidate and apply
  -- none, also when the identity of the key or route changes in between.
  pub cooldown-watch :
      (t : Tick C) (s : State) (ts : List (Tick C))
      → selects (required_route_recovery t s).1 ≡ true
      → All (λ u. u.now < t.now + t.cooldown) ts
      → (watch ts (required_route_recovery t s).0).1 ≡ []
  cooldown-watch t s ts h l =
      quiet_watch (t.now + t.cooldown) ts (required_route_recovery t s).0 (selection-times t s h) l
