-- ===== src/WebCommand/State.antt =====
-- The dict `state`, and the operations that show, advance, reconcile and finish a command. Times are
-- whole seconds, 0 where none is set. The lock makes each operation one step.
use bypass_keenetic.Prelude.{
  ℕ, ◌+◌, Bool, true, false, not, ◌&&◌, ◌||◌, Option, none, some, List, [], ◌∷◌, String, ◌==◌,
  if◌then◌else◌, ltb, leb, ◌=ℕ◌, min, max,
}
use bypass_keenetic.KeyPool.Catalog.{mem}

-- A key that is not there is `none`; the other keys are set from the start.
pub record CommandState : Type 0 where
  pub running : Bool
  pub command : String
  pub label : String
  pub result : String
  pub progress : ℕ
  pub progress_label : String
  pub started_at : ℕ
  pub finished_at : ℕ
  pub shown_after_finish : Option Bool
  pub target_version : Option String

-- `bool(value)` of a text, a time and a flag that may be missing.
unfoldable pub is_set : String → Bool
is_set s = not (s == "")

unfoldable pub is_time : ℕ → Bool
is_time n = not (n =ℕ 0)

unfoldable pub is_shown : Option Bool → Bool
is_shown none = false
is_shown (some b) = b

-- `if 'shown_after_finish' in state: state['shown_after_finish'] = value`
unfoldable pub mark_shown : Bool → Option Bool → Option Bool
mark_shown b none = none
mark_shown b (some old) = some b

-- `label and not running and finished_at`
unfoldable pub finished : CommandState → Bool
finished s = is_set s.label && (not s.running && is_time s.finished_at)

-- `state.update(cleared)`; the key `target_version` is not among those cleared.
unfoldable pub clear_command : CommandState → CommandState
clear_command s = record {
  running = false;
  command = "";
  label = "";
  result = "";
  progress = 0;
  progress_label = "";
  started_at = 0;
  finished_at = 0;
  shown_after_finish = some false;
  target_version = s.target_version;
}

-- The snapshot, marked as shown if its command is one that is cleared when it has finished.
unfoldable pub snapshot : List String → CommandState → CommandState
snapshot clear_commands s =
    if finished s && mem s.command clear_commands
    then record s { shown_after_finish = some true }
    else s

-- The state after, and the state to show. The dict of a cleared command that is shown has no key
-- `target_version`.
unfoldable pub consume_command_state_for_render :
    List String → CommandState → CommandState × CommandState
unfolding snapshot finished clear_command
consume_command_state_for_render clear_commands s =
    let shown = snapshot clear_commands s in
    if finished shown && is_shown shown.shown_after_finish
    then (clear_command s, record (clear_command s) { target_version = none })
    else if finished shown
    then (record s { shown_after_finish = mark_shown true s.shown_after_finish }, shown)
    else (s, shown)

-- The estimate is that of the parameter `progress_estimator`. The state after, and `changed`.
unfoldable pub set_command_progress :
    String → String → ℕ × String → CommandState → CommandState × Bool
set_command_progress command text (progress, label) s =
    let back = s.running && (s.command == command && ltb progress s.progress) in
    let p = if back then s.progress else progress in
    let l = if back then s.progress_label else label in
    (
      record s {
        result = text;
        progress = p;
        progress_label = l;
        shown_after_finish = mark_shown false s.shown_after_finish;
      },
      not (s.result == text) || (not (s.progress =ℕ p) || not (s.progress_label == l)),
    )

-- `label` is what `label_func` gives for the command, and `now` the time.
unfoldable pub finish_command :
    String → String → String → List String → String → ℕ → CommandState → CommandState
finish_command command result label update_commands finished_label now s =
    let update = mem command update_commands in
    record s {
      running = false;
      command = command;
      label = label;
      result = result;
      progress = if update then 100 else s.progress;
      progress_label = if update then finished_label else "";
      finished_at = now;
      shown_after_finish = mark_shown false s.shown_after_finish;
    }

-- `update_state`, the file that the update writes about itself, and the source, the command and the
-- start of the job.
pub record UpdateState : Type 0 where
  pub running : Bool
  pub command : String
  pub progress : ℕ
  pub progress_label : String
  pub started_at : ℕ
  pub finished_at : ℕ
  pub message : String
  pub target_version : String

pub record JobState : Type 0 where
  pub source : String
  pub command : String
  pub started_at : ℕ

-- `max(0, min(100, value))`
unfoldable pub progress_value : ℕ → ℕ
progress_value n = min 100 n

-- The times that are set.
unfoldable pub starts : List ℕ → List ℕ
starts [] = []
starts (t ∷ ts) = let rest = starts ts in if is_time t then t ∷ rest else rest

-- `max(starts)` and `min(starts)`
unfoldable pub latest : List ℕ → ℕ
latest [] = 0
latest (t ∷ ts) = max t (latest ts)

unfoldable pub earliest : ℕ → List ℕ → ℕ
earliest t [] = t
earliest t (u ∷ us) = min t (earliest u us)

-- `not starts or max(starts) - min(starts) <= start_tolerance`
unfoldable pub close_starts : ℕ → List ℕ → Bool
unfolding latest earliest
close_starts tolerance [] = true
close_starts tolerance (t ∷ ts) = leb (latest (t ∷ ts)) (earliest t ts + tolerance)

unfoldable pub job_matches : String → Option JobState → Bool
job_matches command none = true
job_matches command (some job) = job.source == "web" && job.command == command

unfoldable pub job_start : Option JobState → ℕ
job_start none = 0
job_start (some job) = job.started_at

-- `none` stands for a job that is no dict or an empty one.
unfoldable pub update_state_matches_command :
    ℕ → CommandState → UpdateState → Option JobState → Bool
unfolding close_starts starts job_matches job_start is_set
update_state_matches_command tolerance s u job =
    is_set s.command
    && (mem s.command ("update" ∷ "rollback_update" ∷ [])
        && (u.command == s.command
            && (job_matches s.command job
                && close_starts tolerance
                    (starts (s.started_at ∷ u.started_at ∷ job_start job ∷ [])))))

-- The progress, its label and the target version, taken from the update.
unfoldable pub take_progress : UpdateState → CommandState → CommandState
take_progress u s =
    let more = leb (progress_value s.progress) (progress_value u.progress) in
    record s {
      progress = if more then progress_value u.progress else s.progress;
      progress_label =
          if more && is_set u.progress_label then u.progress_label else s.progress_label;
      target_version = if is_set u.target_version then some u.target_version else s.target_version;
    }

-- The command ends if the update has.
unfoldable pub take_end : UpdateState → CommandState → CommandState
take_end u s =
    if not u.running && is_time u.finished_at
    then record s {
      running = false;
      progress = 100;
      progress_label = u.progress_label;
      result = if is_set u.message then u.message else s.result;
      finished_at = u.finished_at;
      shown_after_finish = mark_shown false s.shown_after_finish;
    }
    else s

-- The state after; the code returns whether it differs from the state before.
unfoldable pub reconcile_update_state : UpdateState → Option JobState → CommandState → CommandState
unfolding update_state_matches_command take_end take_progress
reconcile_update_state u job s =
    if s.running && update_state_matches_command 10 s u job
    then take_end u (take_progress u s)
    else s
