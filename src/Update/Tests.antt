-- ===== src/Update/Tests.antt =====
-- An update that two reports advance and that ends, and the theorems about it.
use bypass_keenetic.Prelude.{ℕ, true, false, none, some, List, [], ◌∷◌, ◌≡◌, refl, arith}
use bypass_keenetic.KeyPool.Catalog.{mem}
use bypass_keenetic.WebCommand.State.{CommandState, update_state_matches_command, is_time}
use bypass_keenetic.Update.Status.{
  Files, Writes, Call, JobFile, read_update_status, normalize_update_status, finish_update_status,
}
use bypass_keenetic.Update.Advance.{current, Runs, AllReport, write_all, write_all-Runs}
use bypass_keenetic.Update.Ending.{all_written, Ended, finish_update_status-Ended}

abbrev page : CommandState
page = record {
  running = true;
  command = "update";
  label = "Update";
  result = "";
  progress = 5;
  progress_label = "start";
  started_at = 1000;
  finished_at = 0;
  shown_after_finish = some false;
  target_version = none;
}

abbrev job : JobFile
job = record {
  job = record { source = "web"; command = "update"; started_at = 998 };
  running = true;
  finished_at = 0;
}

abbrev files : Files
files = record {
  status = some (record {
    report = record {
      running = true;
      command = "update";
      progress = 40;
      progress_label = "files";
      started_at = 1001;
      finished_at = 0;
      message = "";
      target_version = "";
    };
    updated_at = 1010;
  });
  web = some page;
  job = some job;
}

abbrev call : ℕ → Call
call progress = record {
  command = "update";
  running = true;
  progress = progress;
  progress_label = "";
  message = "";
  target_version = none;
  started_at = none;
  sync_web = true;
}

-- The second report comes late, and its write fails.
abbrev calls : List (Writes × ℕ × Call)
calls =
    (all_written, 1020, call 60)
    ∷ (record all_written { status_written = false }, 1030, call 50)
    ∷ []

write_all-Runs_example : Runs "update" 40 (current (write_all calls files))
write_all-Runs_example =
    write_all-Runs "update" calls files 40
      (unfold AllReport in ((refl, refl, refl), ((refl, refl, refl), tt)))
      (unfold read_update_status normalize_update_status in (refl, refl, omega arith, omega arith))

page_matches : update_state_matches_command 10 page (current files) (some job.job) ≡ true
unfolding update_state_matches_command read_update_status normalize_update_status mem is_time
page_matches = refl

finish_update_status-Ended_example :
    Ended 1100 (finish_update_status all_written 1100 "update" "done" 100 true files).0
    × ((current (finish_update_status all_written 1100 "update" "done" 100 true files).0).running
        ≡ false)
finish_update_status-Ended_example =
    finish_update_status-Ended 1100 100 "update" "done" page job files refl refl
      (unfold read_update_status normalize_update_status in refl)
      (unfold read_update_status normalize_update_status in refl)
      (unfold read_update_status normalize_update_status is_time in refl) (unfold is_time in refl)
      refl refl page_matches
