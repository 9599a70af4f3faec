-- ===== src/Update/Status.antt =====
-- The status of an update is the `UpdateState` that the web page reads, and its time `updated_at`.
-- Times are whole seconds. A write fails or it does not; a file that is missing, unreadable or no JSON
-- object is `none`.
use Prim.Native.String.{count}
use Prim.Native.String as Str
use bypass_keenetic.Prelude.{
  ℕ, ◌+◌, Bool, true, false, not, ◌&&◌, ◌||◌, Option, none, some, String, ◌==◌, if◌then◌else◌, ltb,
  leb, ◌=ℕ◌, min,
}
use bypass_keenetic.Prelude.Text.{strip}
use bypass_keenetic.Routes.Strings.{has_char}
use bypass_keenetic.WebCommand.State.{
  CommandState, UpdateState, JobState, is_set, is_time, is_shown, update_state_matches_command,
  reconcile_update_state,
}

-- `TARGET_VERSION_RE.fullmatch`
unfoldable pub version_chars : String → Bool
version_chars Str.[] = true
version_chars (Str.◌∷◌ c s) =
    has_char c "0123456789abcdefghijklmnopqrstuvwxyzABCDEFGHIJKLMNOPQRSTUVWXYZ._-"
    && version_chars s

unfoldable pub from_digit : String → Bool
from_digit Str.[] = false
from_digit (Str.◌∷◌ c s) = has_char c "0123456789" && (version_chars s && leb (count s) 40)

unfoldable pub is_version : String → Bool
is_version Str.[] = false
is_version (Str.◌∷◌ c s) = if has_char c "v" then from_digit s else from_digit (Str.◌∷◌ c s)

unfoldable pub target_version_of : String → String
target_version_of value = if is_version (strip value) then strip value else ""

pub record Status : Type 0 where
  pub report : UpdateState
  pub updated_at : ℕ

abbrev pub default_status : Status
default_status = record {
  report = record {
    running = false;
    command = "";
    progress = 0;
    progress_label = "";
    started_at = 0;
    finished_at = 0;
    message = "";
    target_version = "";
  };
  updated_at = 0;
}

unfoldable pub normalize_update_status : Status → Status
normalize_update_status s = record s {
  report = record s.report {
    progress = min 100 s.report.progress;
    target_version = target_version_of s.report.target_version;
  };
}

-- The file of the job, as far as the code looks at it.
pub record JobFile : Type 0 where
  pub job : JobState
  pub running : Bool
  pub finished_at : ℕ

pub record Files : Type 0 where
  pub status : Option Status
  pub web : Option CommandState
  pub job : Option JobFile

-- Which of the three writes of `_write_json` work.
pub record Writes : Type 0 where
  pub status_written : Bool
  pub web_written : Bool
  pub job_written : Bool

unfoldable pub read_update_status : Files → Status
read_update_status f = elim f.status [ none ↦ default_status | some s ↦ normalize_update_status s ]

unfoldable pub same_version : Option String → Option String → Bool
same_version none none = true
same_version none (some w) = false
same_version (some v) none = false
same_version (some v) (some w) = v == w

unfoldable pub same_flag : Bool → Bool → Bool
same_flag true b = b
same_flag false b = not b

-- `state == before`, for the keys that `reconcile_update_state` changes. It sets `shown_after_finish`
-- to False only.
unfoldable pub same_state : CommandState → CommandState → Bool
same_state s t =
    same_flag s.running t.running
    && (s.progress =ℕ t.progress
        && (s.progress_label == t.progress_label
            && (s.result == t.result
                && (s.finished_at =ℕ t.finished_at
                    && (same_flag (is_shown s.shown_after_finish) (is_shown t.shown_after_finish)
                        && same_version s.target_version t.target_version)))))

unfoldable pub job_state : Option JobFile → Option JobState
job_state none = none
job_state (some j) = some j.job

-- `job_changed`
unfoldable pub job_ends : UpdateState → Option JobFile → Bool
job_ends u none = false
job_ends u (some j) = not u.running && j.running

-- `now` is the time that `time.time()` gives.
unfoldable pub end_job : ℕ → UpdateState → Option JobFile → Option JobFile
end_job now u none = none
end_job now u (some j) =
    if not u.running && j.running
    then some (record j {
      running = false;
      finished_at = if is_time u.finished_at then u.finished_at else now;
    })
    else some j

-- The files after, and the result.
unfoldable pub sync_matched : Writes → ℕ → UpdateState → CommandState → Files → Files × Bool
sync_matched w now u s f =
    let next = reconcile_update_state u (job_state f.job) s in
    let changed = not (same_state next s) in
    if changed && not w.web_written then (f, false) else (
      record f {
        web = if changed then some next else f.web;
        job = if w.job_written then end_job now u f.job else f.job;
      },
      changed || job_ends u f.job,
    )

unfoldable pub sync_web_command_state : Writes → ℕ → UpdateState → Files → Files × Bool
sync_web_command_state w now u f = elim f.web [
  | none ↦ (f, false)
  | some s ↦
      (if update_state_matches_command 10 s u (job_state f.job)
        then sync_matched w now u s f
        else (f, false))
]

-- The arguments of `write_update_status`; `none` is `None`.
pub record Call : Type 0 where
  pub command : String
  pub running : Bool
  pub progress : ℕ
  pub progress_label : String
  pub message : String
  pub target_version : Option String
  pub started_at : Option ℕ
  pub sync_web : Bool

unfoldable pub start_of : Call → ℕ → UpdateState → ℕ
start_of c now current = elim c.started_at [
  | some t ↦ t
  | none ↦ (if current.running && current.command == c.command then current.started_at else now)
]

unfoldable pub is_same_run : Call → ℕ → UpdateState → Bool
is_same_run c start current =
    current.running
    && (current.command == c.command
        && (leb current.started_at (start + 10) && leb start (current.started_at + 10)))

-- `a or b` for texts
unfoldable pub or_text : String → String → String
or_text a b = if is_set a then a else b

unfoldable pub target_text : Call → Bool → UpdateState → String
target_text c same_run current = elim c.target_version [
  | some v ↦ v
  | none ↦ (if same_run then current.target_version else "")
]

-- The status that is written and returned.
unfoldable pub next_status : Call → ℕ → UpdateState → Status
next_status c now current =
    let start = start_of c now current in
    let same_run = is_same_run c start current in
    let keep = c.running && (same_run && ltb (min 100 c.progress) current.progress) in
    normalize_update_status (record {
      report = record {
        running = c.running;
        command = c.command;
        progress = if keep then current.progress else c.progress;
        progress_label =
            if keep then or_text current.progress_label c.progress_label else c.progress_label;
        message = if keep then or_text current.message c.message else c.message;
        target_version = target_text c same_run current;
        started_at = if is_time start then start else now;
        finished_at = if c.running then 0 else now;
      };
      updated_at = now;
    })

unfoldable pub write_update_status : Writes → ℕ → Call → Files → Files × Status
write_update_status w now c f =
    let status = next_status c now (read_update_status f).report in
    let written = if w.status_written then record f { status = some status } else f in
    (if c.sync_web then (sync_web_command_state w now status.report written).0 else written, status)

unfoldable pub finish_update_status :
    Writes → ℕ → String → String → ℕ → Bool → Files → Files × Status
finish_update_status w now command message progress sync_web f =
    write_update_status w now
      (record {
        command = command;
        running = false;
        progress = progress;
        progress_label = "Завершено";
        message = message;
        target_version = none;
        started_at = none;
        sync_web = sync_web;
      })
      f
