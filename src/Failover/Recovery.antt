-- ===== src/Failover/Recovery.antt =====
-- Three failing checks in a row are enough for the watchdog to look for a candidate.
use bypass_keenetic.Prelude.{
  ℕ, suc, ◌+◌, ◌≤◌, Bool, true, false, Option, none, some, [], ◌∷◌, String, ltb, Result, ok, raise,
  ◌≡◌, refl, arith, ap, sym, subst, ◌∙◌,
}
use bypass_keenetic.Failover.Watchdog.{
  State, Evidence, verdict, service, is_false, checked, selected, validated, CallError, Tick,
  differs, for_identity, count_failure, try_apply, try_valid, try_candidate, on_evidence,
  required_route_recovery,
}
use bypass_keenetic.Failover.Failing.{Failing, same_key, key_of, fresh_count, next_count}
use bypass_keenetic.Failover.Cooldown.{selects}

module _ {C : Type 0} where
  -- The check of this call answers that the service fails.
  abbrev pub Fails : Tick C → String → Type 0
  Fails t svc =
      (ev : Evidence) × (t.check_active ≡ ok ev)
      × (is_false (verdict ev) ≡ true)
      × (service ev ≡ svc)

  -- The state that the check of a call finds.
  found : Tick C → State → State
  found t s = record (for_identity t.key_identity s) { retry_at = t.now + 60 }

  asks :
      (t : Tick C) (s : State)
      → ltb t.now (for_identity t.key_identity s).retry_at ≡ false
      → required_route_recovery t s ≡ on_evidence t t.check_active (found t s)
  unfolding required_route_recovery found
  asks t s w = ground arith

  counts :
      (t : Tick C) (ev : Evidence) (s : State)
      → is_false (verdict ev) ≡ true
      → ltb (count_failure t.now (service ev) s).failures 3 ≡ true
      → (on_evidence t (ok ev) s).0 ≡ count_failure t.now (service ev) s
  unfolding on_evidence
  counts t ev s v l = ground arith

  selects-apply :
      (c : C) (r : Result CallError (Unit {0})) (s : State)
      → selects (try_apply c r (checked ∷ selected ∷ validated c ∷ []) s).1 ≡ true
  unfolding try_apply selects
  selects-apply c (raise e) s = refl
  selects-apply c (ok u) s = refl

  selects-valid :
      (t : Tick C) (c : C) (r : Result CallError Bool) (s : State)
      → selects (try_valid t c r s).1 ≡ true
  unfolding try_valid selects
  selects-valid t c (raise e) s = refl
  selects-valid t c (ok false) s = refl
  selects-valid t c (ok true) s = selects-apply c (t.apply_candidate c) s

  selects-candidate :
      (t : Tick C) (r : Result CallError (Option C)) (s : State)
      → selects (try_candidate t r s).1 ≡ true
  unfolding try_candidate selects
  selects-candidate t (raise e) s = refl
  selects-candidate t (ok none) s = refl
  selects-candidate t (ok (some c)) s = selects-valid t c (t.still_valid c) s

  third :
      (t : Tick C) (ev : Evidence) (s : State)
      → is_false (verdict ev) ≡ true
      → ltb (count_failure t.now (service ev) s).failures 3 ≡ false
      → selects (on_evidence t (ok ev) s).1 ≡ true
  unfolding on_evidence
  third t ev s v l =
      let s' = count_failure t.now (service ev) s in
      let until = t.now + t.cooldown in
      ground (
        arith,
        selects-candidate t t.select_candidate
            (record s' { retry_at = until; cooldown_until = until }),
      )

  -- One failing check, whose call is not too early.
  counted_once :
      (t : Tick C) (svc : String) (s : State)
      → Fails t svc
      → ltb t.now (for_identity t.key_identity s).retry_at ≡ false
      → ltb (count_failure t.now svc (found t s)).failures 3 ≡ true
      → (required_route_recovery t s).0 ≡ count_failure t.now svc (found t s)
  counted_once t svc s (ev, c, v, a) w l =
      ap (λ r. r.0) (asks t s w ∙ ap (λ r. on_evidence t r (found t s)) c)
      ∙ (counts t ev (found t s) v
            (subst (λ x. ltb (count_failure t.now x (found t s)).failures 3 ≡ true) (sym a) l)
          ∙ ap (λ x. count_failure t.now x (found t s)) a)

  -- The third one.
  selected_then :
      (t : Tick C) (svc : String) (s : State)
      → Fails t svc
      → ltb t.now (for_identity t.key_identity s).retry_at ≡ false
      → ltb (count_failure t.now svc (found t s)).failures 3 ≡ false
      → selects (required_route_recovery t s).1 ≡ true
  selected_then t svc s (ev, c, v, a) w l =
      ap (λ r. selects r.1) (asks t s w ∙ ap (λ r. on_evidence t r (found t s)) c)
      ∙ third t ev (found t s) v
          (subst (λ x. ltb (count_failure t.now x (found t s)).failures 3 ≡ false) (sym a) l)

  first_check :
      (t : Tick C) (svc : String) (s : State)
      → Fails t svc
      → ltb t.now (for_identity t.key_identity s).retry_at ≡ false
      → differs (for_identity t.key_identity s).failure_service svc ≡ true
      → Failing t.key_identity svc 1 t.now t.now (required_route_recovery t s).0
  unfolding found
  first_check t svc s f w d =
      let g = fresh_count t.key_identity svc t.now (found t s) (key_of t.key_identity s) refl d in
      subst (Failing t.key_identity svc 1 t.now t.now)
        (sym (counted_once t svc s f w (ground (arith, g.count)))) g

  not_early :
      (t : Tick C) (svc : String) (n first last : ℕ) (s : State)
      → Failing t.key_identity svc n first last s
      → last + 60 ≤ t.now
      → ltb t.now (for_identity t.key_identity s).retry_at ≡ false
  not_early t svc n first last s g early =
      rw (same_key t.key_identity s g.identity_known, g.waits) (ground arith)

  found_same :
      (t : Tick C) (svc : String) (n first last : ℕ) (s : State)
      → Failing t.key_identity svc n first last s
      → found t s ≡ record s { retry_at = t.now + 60 }
  unfolding found
  found_same t svc n first last s g =
      ap {A = State} {B = State} (λ x. record x { retry_at = t.now + 60 })
        (same_key t.key_identity s g.identity_known)

  -- The count of a check that comes in time.
  counted_next :
      (t : Tick C) (svc : String) (n first last : ℕ) (s : State)
      → Failing t.key_identity svc n first last s
      → t.now ≤ first + 300
      → Failing t.key_identity svc (suc n) first t.now (count_failure t.now svc (found t s))
  counted_next t svc n first last s g late =
      subst (λ x. Failing t.key_identity svc (suc n) first t.now (count_failure t.now svc x))
        (sym (found_same t svc n first last s g))
        (next_count t.key_identity svc n first last t.now s g late)

  next_check :
      (t : Tick C) (svc : String) (first last : ℕ) (s : State)
      → Fails t svc
      → Failing t.key_identity svc 1 first last s
      → last + 60 ≤ t.now
      → t.now ≤ first + 300
      → Failing t.key_identity svc 2 first t.now (required_route_recovery t s).0
  next_check t svc first last s f g early late =
      let h = counted_next t svc 1 first last s g late in
      subst (Failing t.key_identity svc 2 first t.now)
        (sym (
          counted_once t svc s f (not_early t svc 1 first last s g early)
            (ground (arith, h.count))))
        h

  last_check :
      (t : Tick C) (svc : String) (first last : ℕ) (s : State)
      → Fails t svc
      → Failing t.key_identity svc 2 first last s
      → last + 60 ≤ t.now
      → t.now ≤ first + 300
      → selects (required_route_recovery t s).1 ≡ true
  last_check t svc first last s f g early late =
      let h = counted_next t svc 2 first last s g late in
      selected_then t svc s f (not_early t svc 2 first last s g early) (ground (arith, h.count))

  -- Three calls of `required_route_recovery` for one identity, at least 60 s apart and within 300 s, whose
  -- checks all answer that one service fails: the third looks for a candidate. Conditions: no pause
  -- holds the first call back, and the last answer that the state keeps is not about this service, as in
  -- a new state and after a good answer or a change of the identity.
  pub three_failures-select :
      (t u v : Tick C) (svc : String) (s : State)
      → u.key_identity ≡ t.key_identity
      → v.key_identity ≡ t.key_identity
      → Fails t svc
      → Fails u svc
      → Fails v svc
      → ltb t.now (for_identity t.key_identity s).retry_at ≡ false
      → differs (for_identity t.key_identity s).failure_service svc ≡ true
      → t.now + 60 ≤ u.now
      → u.now + 60 ≤ v.now
      → v.now ≤ t.now + 300
      → selects
          (required_route_recovery v
            (required_route_recovery u (required_route_recovery t s).0).0).1
        ≡ true
  three_failures-select t u v svc s ku kv ft fu fv w d a b c =
      let one = first_check t svc s ft w d in
      let two =
        next_check u svc t.now t.now (required_route_recovery t s).0 fu
          (subst (λ i. Failing i svc 1 t.now t.now (required_route_recovery t s).0) (sym ku) one) a
          (omega arith) in
      let s' = (required_route_recovery u (required_route_recovery t s).0).0 in
      last_check v svc t.now u.now s' fv
        (subst (λ i. Failing i svc 2 t.now u.now s') (ku ∙ sym kv) two) b c
