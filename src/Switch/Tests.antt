-- ===== src/Switch/Tests.antt =====
-- A change of the key of vless, and the theorems about it.
use bypass_keenetic.Prelude.{true, false, none, some, List, [], ◌∷◌, if◌then◌else◌, ◌≡◌, refl}
use bypass_keenetic.Prelude.Text.{strip}
use bypass_keenetic.KeyPool.Catalog.{mem}
use bypass_keenetic.Switch.Letters.{lower, all_hex, front}
use bypass_keenetic.Switch.Record.{
  Payload, Transaction, missing, normalize_transaction, load_transaction, begin_transaction,
  clear_transaction, or_started,
}
use bypass_keenetic.Switch.Phases.{core, Step, run_steps, begin-steps}

abbrev request : Payload
request = record {
  proto = "vless ";
  original_id = "0123456789ABCDEF0123456789abcdef01234567";
  candidate_id = "fedcba9876543210fedcba9876543210fedcba98";
  trigger = "watchdog";
  phase = "prepared";
  original_key = "vless://a";
  started_at = some 7;
  updated_at = some 0;
}

abbrev transaction : Transaction
transaction = record {
  proto = "vless";
  original_id = "0123456789abcdef0123456789abcdef01234567";
  candidate_id = "fedcba9876543210fedcba9876543210fedcba98";
  trigger = "watchdog";
  phase = "prepared";
  original_key = "vless://a";
  started_at = 7;
  updated_at = 7;
}

abbrev steps : List Step
steps =
    record { phase = "candidate_installed"; now = 8; written = true }
    ∷ record { phase = "restore_started"; now = 9; written = false }
    ∷ []

request_runs : normalize_transaction request ≡ some transaction
unfolding normalize_transaction mem strip lower all_hex front or_started
request_runs = refl

begin_works : (begin_transaction true request 7 missing).1 ≡ true
unfolding begin_transaction mem strip lower all_hex
begin_works = refl

begin-steps_example :
    let after = run_steps steps (begin_transaction true request 7 missing).0 in
    (core (load_transaction after)
      ≡ some (record {
        proto = strip "vless ";
        original_id = lower (strip "0123456789ABCDEF0123456789abcdef01234567");
        candidate_id = lower (strip "fedcba9876543210fedcba9876543210fedcba98");
        original_key = strip "vless://a";
        started_at = 7;
      }))
    × (core (load_transaction (clear_transaction true after).0)
        ≡ (if (clear_transaction true after).1 then none else core (load_transaction after)))
begin-steps_example = begin-steps true true request 7 steps missing begin_works
