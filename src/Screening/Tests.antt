-- ===== src/Screening/Tests.antt =====
-- Concrete runs of the screening of a candidate key.
use bypass_keenetic.Prelude.{
  ℕ, ◌+◌, true, false, not, none, some, String, ◌==◌, [], ◌∷◌, ◌≡◌, refl, arith,
}
use bypass_keenetic.Prelude.Dict
use bypass_keenetic.Plan.Json.{Value}
use bypass_keenetic.Screening.Checks.{
  Check, Contract, Outcome, Calls, no_values, required, put_service, is_true, service_result,
  check_result, budget, remaining, limits, probe_service, services_loop, targets, attempt_result,
  attempts, urls_loop, checks_loop, check_required,
}
use bypass_keenetic.Screening.Good.{Explained}
use bypass_keenetic.Screening.Passing.{check_required-Explained}
use bypass_keenetic.Screening.Entries.{Entry, matching, record_required, recorded, recent_failure}
use bypass_keenetic.Screening.Recording.{NoFailure}
use bypass_keenetic.Screening.Blocking.{check_required-blocks, check_required_unblocked}

-- The outside is the time; each call takes 100 milliseconds, and the check of "https://bad" fails.
abbrev calls : Calls ℕ
calls = record {
  clock = λ w. (w, w);
  check_telegram = λ c r w. (some true, w + 100);
  check_youtube = λ c r w. (some true, w + 100);
  check_custom = λ url c r w. ((some (not (url == "https://bad")), "HTTP 500"), w + 100);
  is_transient_status_text = λ t. t == "timeout";
}

abbrev check : String → Check
check url = record { id = "music"; url = url; urls = none }

abbrev contract : String → Contract
contract url = record {
  telegram = true;
  youtube = true;
  custom = check url ∷ [];
  legacy_signature = none;
  legacy_checks = [];
}

abbrev sample : String → ℕ → Outcome
sample url budget_end =
    (check_required calls (2000, 3000) (some budget_end) "youtube" (contract url) 0).0

abbrev empty_entry : Entry
empty_entry = record {
  custom = [];
  custom_times = [];
  custom_signatures = [];
  custom_sig = none;
  custom_ts = 0;
}

abbrev hex : Value → String
hex v = "e3b0"

fails_music : (sample "https://bad" 5000).reason ≡ "music"
unfolding check_required services_loop required budget remaining limits probe_service put_service
    service_result is_true no_values checks_loop targets urls_loop attempts attempt_result
    check_result Dict.put
fails_music = refl

fails : (sample "https://bad" 5000).verdict ≡ some false
unfolding check_required services_loop required budget remaining limits probe_service put_service
    service_result is_true no_values checks_loop targets urls_loop attempts attempt_result
    check_result Dict.put
fails = refl

runs_out : (sample "https://good" 100).verdict ≡ none
unfolding check_required services_loop required budget remaining limits probe_service put_service
    service_result is_true no_values checks_loop targets urls_loop attempts attempt_result
    check_result Dict.put
runs_out = refl

check_required-Explained_example :
    Explained "youtube"
      (contract "https://bad")
      (check_required calls (2000, 3000) (some 5000) "youtube" (contract "https://bad") 0).0
check_required-Explained_example =
    check_required-Explained calls (2000, 3000) (some 5000) "youtube" (contract "https://bad") 0

named :
    ((sample "https://bad" 5000).reason == "telegram") ≡ false
    × ((sample "https://bad" 5000).reason == "youtube") ≡ false
unfolding check_required services_loop required budget remaining limits probe_service put_service
    service_result is_true no_values checks_loop targets urls_loop attempts attempt_result
    check_result Dict.put
named = (refl, refl)

check_required-blocks_example :
    (c : Check) × (matching
        (recent_failure hex hex 1200
          (recorded hex hex 1000
            (record_required (contract "https://bad") (sample "https://bad" 5000).values)
            empty_entry)
          (contract "https://bad"))
        (check "https://bad" ∷ [])
      ≡ some c)
check_required-blocks_example =
    check_required-blocks calls (2000, 3000) (some 5000) hex hex "youtube" (contract "https://bad")
      0 (sample "https://bad" 5000) empty_entry 1000 1200 (λ v. refl) refl fails named.0 named.1
      (omega arith) (omega arith) (omega arith)

not_failed : (sample "https://good" 100).verdict ≡ some false → ⊥
unfolding check_required services_loop required budget remaining limits probe_service put_service
    service_result is_true no_values checks_loop targets urls_loop attempts attempt_result
    check_result Dict.put
not_failed e = ground arith

nothing_failed : NoFailure []
unfolding Dict.get
nothing_failed id e = ground arith

check_required_unblocked_example :
    recent_failure hex hex 1200
      (recorded hex hex 1000
        (record_required (contract "https://good") (sample "https://good" 100).values)
        empty_entry)
      (contract "https://good")
    ≡ ""
check_required_unblocked_example =
    check_required_unblocked calls (2000, 3000) (some 100) hex hex "youtube"
      (contract "https://good") 0 (sample "https://good" 100) empty_entry 1000 1200 refl not_failed
      nothing_failed
