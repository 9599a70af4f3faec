-- ===== src/WebCommand/Progress.antt =====
-- The progress of a running command over any reports about it.
use bypass_keenetic.Prelude.{
  ℕ, ◌≤◌, true, Option, List, [], ◌∷◌, String, ◌≡◌, refl, arith, eq_iff, All, ◌∙◌,
}
use bypass_keenetic.WebCommand.State.{
  CommandState, UpdateState, JobState, set_command_progress, take_progress, take_end,
  progress_value, reconcile_update_state,
}

-- An output of the command with its estimate, or a look at the file of the update.
pub data Report : Type 0 where
  output : String → ℕ × String → Report
  update_file : UpdateState → Option JobState → Report

unfoldable pub take_report : Report → CommandState → CommandState
take_report (output text estimate) s = (set_command_progress s.command text estimate s).0
take_report (update_file u job) s = reconcile_update_state u job s

unfoldable pub take_reports : List Report → CommandState → CommandState
take_reports [] s = s
take_reports (r ∷ rs) s = take_reports rs (take_report r s)

-- An estimate is a percentage.
abbrev pub Sane : Report → Type 0
Sane (output text (progress, label)) = progress ≤ 100
Sane (update_file u job) = Unit

-- A running state went forward.
abbrev Forward : CommandState → CommandState → Type 0
Forward s t =
    t.running ≡ true
    → (s.running ≡ true) × (t.command ≡ s.command) × (s.progress ≤ t.progress) × (t.progress ≤ 100)

report_running :
    (r : Report) (s : CommandState) → (take_report r s).running ≡ true → s.running ≡ true
unfolding take_report set_command_progress reconcile_update_state take_end take_progress
report_running (output text estimate) s h = h
report_running (update_file u job) s h = ground arith

report-Forward :
    (r : Report) (s : CommandState) → s.progress ≤ 100 → Sane r → Forward s (take_report r s)
unfolding take_report set_command_progress reconcile_update_state take_end take_progress
    progress_value
report-Forward (output text (progress, label)) s b v h = ground (arith, eq_iff s.command s.command)
report-Forward (update_file u job) s b v h = ground arith

running_before :
    (rs : List Report) (s : CommandState) → (take_reports rs s).running ≡ true → s.running ≡ true
unfolding take_reports
running_before [] s h = h
running_before (r ∷ rs) s h = report_running r s (running_before rs (take_report r s) h)

-- While a command is running, also after any outputs of its own, whose estimates are percentages, and
-- any looks at the file of the update: the command is the same, its progress has not gone back, and it
-- is at most 100. Condition: the progress is at most 100 at first.
pub take_reports-progress :
    (rs : List Report) (s : CommandState)
    → s.progress ≤ 100
    → All Sane rs
    → (take_reports rs s).running ≡ true
    → ((take_reports rs s).command ≡ s.command)
      × (s.progress ≤ (take_reports rs s).progress)
      × ((take_reports rs s).progress ≤ 100)
unfolding take_reports
take_reports-progress [] s b v h = (refl, omega arith, b)
take_reports-progress (r ∷ rs) s b v h =
    let s' = take_report r s in
    let (running, command, more, bound) = report-Forward r s b v.0 (running_before rs s' h) in
    let (command', more', bound') = take_reports-progress rs s' bound v.1 h in
    (command' ∙ command, omega (arith, more, more'), bound')
