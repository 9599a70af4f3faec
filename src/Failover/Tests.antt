-- ===== src/Failover/Tests.antt =====
-- A route that fails three times, and the theorems about it.
use bypass_keenetic.Prelude.{ℕ, ◌≤◌, true, false, some, List, [], ◌∷◌, String, ok, ◌≡◌, refl, arith}
use bypass_keenetic.Failover.Watchdog.{
  empty_state, for_identity, verdict_only, Tick, differs, is_false, verdict, service, expired,
  required_route_recovery, watch,
}
use bypass_keenetic.Failover.Cooldown.{selects, cooldown-watch}
use bypass_keenetic.Failover.Streak.{streak, reported, run, selection-run}
use bypass_keenetic.Failover.Recovery.{Fails, three_failures-select}
use bypass_keenetic.Failover.Gate.{new_gate, deferred}
use bypass_keenetic.Failover.Budget.{At, ask, commit, refuse}

abbrev failing : ℕ → Tick String
failing now = record {
  key_identity = "vless key";
  now = now;
  cooldown = 300;
  check_active = ok (verdict_only (some false));
  select_candidate = ok (some "other key");
  still_valid = λ c. ok true;
  apply_candidate = λ c. ok tt;
}

abbrev two_failures : List (Tick String)
two_failures = failing 1000 ∷ failing 1060 ∷ []

third_selects :
    selects (required_route_recovery (failing 1120) (run two_failures empty_state []).0).1 ≡ true
unfolding selects required_route_recovery differs run is_false verdict service expired
third_selects = refl

cooldown-watch_example :
    (watch
      (failing 1200 ∷ failing 1400 ∷ [])
      (required_route_recovery (failing 1120) (run two_failures empty_state []).0).0).1
    ≡ []
cooldown-watch_example =
    cooldown-watch (failing 1120) (run two_failures empty_state []).0
      (failing 1200 ∷ failing 1400 ∷ []) third_selects (omega arith, (omega arith, tt))

selection-run_example :
    3
    ≤ streak "vless key" "route"
        (("vless key", ok (verdict_only (some false))) ∷ (run two_failures empty_state []).1)
unfolding reported
selection-run_example = selection-run two_failures (failing 1120) third_selects

always_down : (now : ℕ) → Fails (failing now) "route"
unfolding is_false verdict service
always_down now = (verdict_only (some false), refl, refl, refl)

three_failures-select_example :
    selects
      (required_route_recovery
        (failing 1120)
        (required_route_recovery
          (failing 1060)
          (required_route_recovery (failing 1000) empty_state).0).0).1
    ≡ true
three_failures-select_example =
    three_failures-select (failing 1000) (failing 1060) (failing 1120) "route" empty_state refl refl
      (always_down 1000) (always_down 1060) (always_down 1120) (unfold for_identity differs in refl)
      (unfold for_identity differs in refl) (omega arith) (omega arith) (omega arith)

abbrev calls : List At
calls =
    record { now = 60; call = refuse "vless" "k" }
    ∷ record { now = 70; call = ask "vless" true }
    ∷ record { now = 80; call = commit "trojan" }
    ∷ []

reserve_works : (deferred "vless" 50 true (new_gate 0)).1 ≡ false
unfolding deferred new_gate
reserve_works = refl
