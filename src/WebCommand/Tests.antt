-- ===== src/WebCommand/Tests.antt =====
-- An update that is shown on the web page, and the theorems about it.
use bypass_keenetic.Prelude.{◌≤◌, true, false, none, some, List, [], ◌∷◌, ◌≡◌, refl, arith}
use bypass_keenetic.KeyPool.Catalog.{mem}
use bypass_keenetic.WebCommand.State.{
  CommandState, UpdateState, set_command_progress, reconcile_update_state, is_time,
}
use bypass_keenetic.WebCommand.Progress.{
  Report, output, update_file, take_report, take_reports, take_reports-progress,
}

abbrev updating : CommandState
updating = record {
  running = true;
  command = "update";
  label = "Update";
  result = "";
  progress = 5;
  progress_label = "start";
  started_at = 1000;
  finished_at = 0;
  shown_after_finish = some false;
  target_version = none;
}

abbrev update : UpdateState
update = record {
  running = true;
  command = "update";
  progress = 45;
  progress_label = "files";
  started_at = 1004;
  finished_at = 0;
  message = "";
  target_version = "2";
}

abbrev reports : List Report
reports = output "first" (12, "begin") ∷ update_file update none ∷ output "second" (30, "late") ∷ []

still_running : (take_reports reports updating).running ≡ true
unfolding take_reports take_report set_command_progress reconcile_update_state mem is_time
still_running = refl

take_reports-progress_example :
    ((take_reports reports updating).command ≡ "update")
    × (5 ≤ (take_reports reports updating).progress)
    × ((take_reports reports updating).progress ≤ 100)
take_reports-progress_example =
    take_reports-progress reports updating (omega arith) (omega arith, (tt, (omega arith, tt)))
      still_running
