-- ===== src/Update/Ending.antt =====
-- The end of an update reaches the web page and the job.
use bypass_keenetic.Prelude.{
  ℕ, true, false, Option, none, some, String, ◌≡◌, refl, arith, eq_iff, ap, ◌∙◌,
}
use bypass_keenetic.WebCommand.State.{
  UpdateState, CommandState, JobState, update_state_matches_command, reconcile_update_state,
  take_end, take_progress, is_time,
}
use bypass_keenetic.Update.Status.{
  Files, Writes, Call, Status, JobFile, read_update_status, default_status, normalize_update_status,
  sync_matched, sync_web_command_state, start_of, next_status, write_update_status,
  finish_update_status, job_state, same_state, same_flag, end_job,
}
use bypass_keenetic.Update.Advance.{current, write-status}

-- All writes work.
abbrev pub all_written : Writes
all_written = record { status_written = true; web_written = true; job_written = true }

-- The page shows a finished command, and the job has ended.
abbrev pub Ended : ℕ → Files → Type 0
Ended now f =
    (s : CommandState) × (j : JobFile) × (f.web ≡ some s)
    × (f.job ≡ some j)
    × (s.running ≡ false)
    × (s.progress ≡ 100)
    × (s.finished_at ≡ now)
    × (j.running ≡ false)

-- An update that has finished.
abbrev IsEnd : ℕ → UpdateState → Type 0
IsEnd now u = (u.running ≡ false) × (u.finished_at ≡ now) × (is_time now ≡ true)

reconciled :
    (now : ℕ) (u : UpdateState) (job : Option JobState) (s : CommandState)
    → IsEnd now u
    → s.running ≡ true
    → update_state_matches_command 10 s u job ≡ true
    → ((reconcile_update_state u job s).running ≡ false)
      × ((reconcile_update_state u job s).progress ≡ 100)
      × ((reconcile_update_state u job s).finished_at ≡ now)
unfolding reconcile_update_state take_end take_progress
reconciled now u job s (a, b, c) r m =
    let t : is_time u.finished_at ≡ true = ap is_time b ∙ c in
    (ground arith, ground arith, ground arith)

stopped_differs :
    (s t : CommandState) → s.running ≡ false → t.running ≡ true → same_state s t ≡ false
unfolding same_state same_flag
stopped_differs s t h k = ground arith

-- The job that has ended.
abbrev ended_job : ℕ → JobFile → JobFile
ended_job now j = record j { running = false; finished_at = now }

ends_with :
    (now : ℕ) (u : UpdateState) (j : JobFile)
    → IsEnd now u
    → j.running ≡ true
    → end_job now u (some j) ≡ some (ended_job now j)
unfolding end_job
ends_with now u j (a, b, c) r = ground arith

matched_web :
    (now : ℕ) (u : UpdateState) (s : CommandState) (f : Files)
    → same_state (reconcile_update_state u (job_state f.job) s) s ≡ false
    → ((sync_matched all_written now u s f).0.web
        ≡ some (reconcile_update_state u (job_state f.job) s))
      × ((sync_matched all_written now u s f).0.job ≡ end_job now u f.job)
unfolding sync_matched
matched_web now u s f h = (ground arith, ground arith)

sync-matched :
    (now : ℕ) (u : UpdateState) (s : CommandState) (j : JobState) (f : Files)
    → f.web ≡ some s
    → job_state f.job ≡ some j
    → update_state_matches_command 10 s u (some j) ≡ true
    → sync_web_command_state all_written now u f ≡ sync_matched all_written now u s f
unfolding sync_web_command_state
sync-matched now u s j f w e m = rw (w, sync_web_command_state) (ground (arith, m, e))

known_job : (f : Files) (j : JobFile) → f.job ≡ some j → job_state f.job ≡ some j.job
unfolding job_state
known_job f j e = ap job_state e

sync-Ended :
    (now : ℕ) (u : UpdateState) (s : CommandState) (j : JobFile) (f : Files)
    → f.web ≡ some s
    → f.job ≡ some j
    → IsEnd now u
    → s.running ≡ true
    → j.running ≡ true
    → update_state_matches_command 10 s u (some j.job) ≡ true
    → Ended now (sync_web_command_state all_written now u f).0
sync-Ended now u s j f ws wj e r jr m =
    let known = known_job f j wj in
    let here : update_state_matches_command 10 s u (job_state f.job) ≡ true =
      ap (update_state_matches_command 10 s u) known ∙ m in
    let (stopped, full, at) = reconciled now u (job_state f.job) s e r here in
    let next = reconcile_update_state u (job_state f.job) s in
    let synced = ap (λ p. p.0) (sync-matched now u s j.job f ws known m) in
    let (web, job) = matched_web now u s f (stopped_differs next s stopped r) in
    (
      next,
      ended_job now j,
      ap Files.web synced ∙ web,
      ap Files.job synced ∙ (job ∙ (ap (end_job now u) wj ∙ ends_with now u j e jr)),
      stopped,
      full,
      at,
      refl,
    )

-- The call that `finish_update_status` makes.
abbrev ending_call : String → String → ℕ → Call
ending_call command message progress = record {
  command = command;
  running = false;
  progress = progress;
  progress_label = "Завершено";
  message = message;
  target_version = none;
  started_at = none;
  sync_web = true;
}

-- The update that runs, as the report of its end matches the page.
end_matches :
    (now progress : ℕ) (command message : String) (u : UpdateState) (s : CommandState)
    (j : JobState)
    → u.running ≡ true
    → u.command ≡ command
    → is_time u.started_at ≡ true
    → update_state_matches_command 10 s u (some j) ≡ true
    → update_state_matches_command 10 s
        (next_status (ending_call command message progress) now u).report
        (some j)
      ≡ true
unfolding next_status normalize_update_status start_of update_state_matches_command
end_matches now progress command message u s j r e t m = ground (arith, eq_iff u.command command)

-- `finish_update_status` with `sync_web`, when all writes work: if the page shows the running update's
-- command as running, and the job of that command runs, then afterwards the status is that of no
-- running update, the page's command has ended at this time with a progress of 100, and the job has
-- ended. Conditions: the job was started by the web page (its source is 'web'); the page, the update
-- in the file and the job name the command that is given, which is `update` or `rollback_update`; the
-- update runs, and its start and the present time are set; and those of the three starts, of the page,
-- of the update and of the job, that are set lie within 10 seconds of each other.
pub finish_update_status-Ended :
    (now progress : ℕ) (command message : String) (s : CommandState) (j : JobFile) (f : Files)
    → f.web ≡ some s
    → f.job ≡ some j
    → (current f).running ≡ true
    → (current f).command ≡ command
    → is_time (current f).started_at ≡ true
    → is_time now ≡ true
    → s.running ≡ true
    → j.running ≡ true
    → update_state_matches_command 10 s (current f) (some j.job) ≡ true
    → Ended now (finish_update_status all_written now command message progress true f).0
      × ((current (finish_update_status all_written now command message progress true f).0).running
          ≡ false)
unfolding finish_update_status write_update_status next_status normalize_update_status
    read_update_status sync_web_command_state
finish_update_status-Ended now progress command message s j f ws wj cr same ct tn r jr m =
    let c = ending_call command message progress in
    let status = next_status c now (current f) in
    (
      sync-Ended now status.report s j (record f { status = some status }) ws wj (refl, refl, tn) r
          jr (end_matches now progress command message (current f) s j.job cr same ct m),
      ap
          (λ o.
            (elim o as (λ x. Status) [
              | none ↦ default_status
              | some v ↦ normalize_update_status v
            ]).report.running)
          (write-status all_written now c f),
    )
