-- ===== src/Events/Tests.antt =====
-- Concrete runs of the history of events.
use bypass_keenetic.Prelude.{
  ℕ, ◌+◌, ◌≤◌, true, false, none, String, List, [], ◌∷◌, length, ◌≡◌, ◌⊎◌, refl, arith,
}
use bypass_keenetic.KeyPool.Catalog.{mem}
use bypass_keenetic.Plan.Json.{Value, no_pair}
use bypass_keenetic.Events.Log.{
  Event, Line, History, Working, never_deduplicate_actions, recovery_restore_sources, limit_of,
  lines_of, record_event,
}
use bypass_keenetic.Events.Bounds.{record_all, record_all-length, all_trim}
use bypass_keenetic.Events.Keeping.{Added, record_event_switch}
use bypass_keenetic.Events.Repeats.{record_event_twice}
use bypass_keenetic.Events.Duration.{Expected, estimate_update_duration}
use bypass_keenetic.Events.Estimate.{Within, estimate_update_duration-Within}

abbrev happened : String → ℕ → Event
happened action ts = record {
  ts = ts;
  level = "info";
  action = action;
  source = "web";
  protocol = "vless";
  service = "update";
  key_hash = "";
  message = "done";
  details = no_pair;
}

abbrev works : Working
works = record { appends = true; reads = true; replaces = true }

abbrev json : Value → String
json v = "{}"

abbrev bytes : List Line → ℕ
bytes ls = length ls

abbrev empty_history : History
empty_history = record { file = none; writes = 0; recent = [] }

abbrev calls : List (Working × ℕ × Event)
calls =
    (works, 60, happened "key_switch" 1000)
    ∷ (works, 60, happened "web_command_start" 1010)
    ∷ (works, 60, happened "web_command_start" 1020)
    ∷ []

trims : all_trim json bytes calls ≡ true
unfolding all_trim
trims = refl

record_all-length_example :
    (length (lines_of (record_all json bytes 2 calls empty_history).file) ≤ limit_of 2 + 9)
    × (length (record_all json bytes 2 calls empty_history).recent ≤ 128)
record_all-length_example = record_all-length json bytes 2 calls trims

a_switch : mem "key_switch" never_deduplicate_actions ≡ true
unfolding mem never_deduplicate_actions
a_switch = refl

from_web : mem "web" recovery_restore_sources ≡ false
unfolding mem recovery_restore_sources
from_web = refl

record_event_switch_example :
    ((record_event json bytes works 2 60 (happened "key_switch" 1000) empty_history).0 ≡ true)
    × Added (happened "key_switch" 1000) (lines_of none) (
        lines_of
          (record_event json bytes works 2 60 (happened "key_switch" 1000) empty_history).1.file)
record_event_switch_example =
    record_event_switch json bytes works 2 60 (happened "key_switch" 1000) empty_history a_switch
      from_web refl

no_switch : mem "web_command_start" never_deduplicate_actions ≡ false
unfolding mem never_deduplicate_actions
no_switch = refl

abbrev once : History
once = (record_event json bytes works 2 60 (happened "web_command_start" 1000) empty_history).1

record_event_twice_example :
    ((record_event json bytes works 2 60 (happened "web_command_start" 1059) once).0 ≡ true)
    × ((record_event json bytes works 2 60 (happened "web_command_start" 1059) once).1.file
        ≡ once.file)
record_event_twice_example =
    record_event_twice json bytes works works 2 60 1059 (happened "web_command_start" 1000)
      empty_history refl no_switch (omega arith) (omega arith) (omega arith)

abbrev expected : Expected
expected = record {
  command = "update";
  default_seconds = 240;
  min_seconds = 30;
  max_seconds = 900;
  min_samples = 1;
}

abbrev update : List Event
update = happened "web_command_start" 1000 ∷ happened "web_command_finish" 1100 ∷ []

estimate_update_duration-Within_example :
    ((estimate_update_duration (λ s. s) expected update).0 ≡ 240)
    ⊎ Within 30 900 (estimate_update_duration (λ s. s) expected update).0
estimate_update_duration-Within_example = estimate_update_duration-Within (λ s. s) expected update
