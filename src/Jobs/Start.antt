-- ===== src/Jobs/Start.antt =====
-- `start_background_command`. Times are whole seconds.
use bypass_keenetic.Prelude.{
  ℕ, ◌+◌, Bool, true, false, not, ◌&&◌, Option, none, some, String, if◌then◌else◌, ltb, ◌=ℕ◌,
  Result, ok, raise,
}

-- What the job file holds. `read_json_file` gives an empty dict where it cannot be read: no command
-- is running, and no start is set. The chat's number stands by its decimal text.
pub record Job : Type 0 where
  pub running : Bool
  pub source : String
  pub action : String
  pub chat_id : String
  pub menu_name : String
  pub repo_owner : String
  pub repo_name : String
  pub branch : String
  pub started_at : ℕ

-- The arguments that the job keeps.
pub record Command : Type 0 where
  pub source : String
  pub action : String
  pub chat_id : String
  pub menu_name : String
  pub repo_owner : String
  pub repo_name : String
  pub branch : String

pub data StartError : Type 0 where
  write_error popen_error : StartError

-- What the call does to the world: the job file, and the number of processes started.
pub record Machine : Type 0 where
  pub job_file : Option Job
  pub started : ℕ

-- Whether the write of the job file and `popen` work.
pub record Faults : Type 0 where
  pub write_works : Bool
  pub popen_works : Bool

-- `running and started_at and now() - started_at < stale_after`
unfoldable pub busy : ℕ → ℕ → Option Job → Bool
busy stale_after now none = false
busy stale_after now (some job) =
    job.running && (not (job.started_at =ℕ 0) && ltb now (job.started_at + stale_after))

unfoldable pub job_of : Command → ℕ → Job
job_of c now = record {
  running = true;
  source = c.source;
  action = c.action;
  chat_id = c.chat_id;
  menu_name = c.menu_name;
  repo_owner = c.repo_owner;
  repo_name = c.repo_name;
  branch = c.branch;
  started_at = now;
}

-- How other code ends the job: `run_worker` removes the file, and an update that has finished clears `running`.
pub data Ending : Type 0 where
  removed cleared : Ending

unfoldable pub clear_running : Option Job → Option Job
clear_running none = none
clear_running (some job) = some (record job { running = false })

unfoldable pub end_of_job : Ending → Machine → Machine
end_of_job removed m = record m { job_file = none }
end_of_job cleared m = record m { job_file = clear_running m.job_file }

-- `seen` is what the first call of `now` gives, and `noted` what the second gives. The result is
-- False with the message, or True.
unfoldable pub start_background_command :
    Command → ℕ → ℕ → ℕ → Faults → Machine → Machine × Result StartError Bool
unfolding busy job_of
start_background_command c stale_after seen noted faults m =
    if busy stale_after seen m.job_file
    then (m, ok false)
    else if not faults.write_works
    then (m, raise write_error)
    else if not faults.popen_works
    then (record m { job_file = some (job_of c noted) }, raise popen_error)
    else (record { job_file = some (job_of c noted); started = m.started + 1 }, ok true)
