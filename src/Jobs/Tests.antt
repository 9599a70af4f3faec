-- ===== src/Jobs/Tests.antt =====
-- Two calls that start a command, and the theorem about them.
use bypass_keenetic.Prelude.{ℕ, ◌+◌, ◌≤◌, true, none, [], ◌∷◌, ok, ◌≡◌, refl, arith}
use bypass_keenetic.Jobs.Start.{Command, Machine, removed, start_background_command}
use bypass_keenetic.Jobs.Single.{Attempt, attempt, called, ended, happens, endings, attempts-start}

abbrev update : Command
update = record {
  source = "telegram";
  action = "-update";
  chat_id = "-100";
  menu_name = "main";
  repo_owner = "o";
  repo_name = "r";
  branch = "main";
}

abbrev call_at : ℕ → Attempt
call_at t = record {
  command = update;
  seen = t;
  noted = t;
  faults = record { write_works = true; popen_works = true };
}

abbrev idle : Machine
idle = record { job_file = none; started = 0 }

first_starts : (attempt 1800 (call_at 100) idle).1 ≡ ok true
unfolding attempt start_background_command
first_starts = refl

attempts-start_example :
    ((attempt 1800 (call_at 100) idle).0.started ≡ 0 + 1)
    × ((happens 1800
          (called (call_at 200) ∷ ended removed ∷ called (call_at 1899) ∷ [])
          (attempt 1800 (call_at 100) idle).0).started
        ≤ 0 + 1 + endings (called (call_at 200) ∷ ended removed ∷ called (call_at 1899) ∷ []))
attempts-start_example =
    attempts-start 1800 (call_at 100)
      (called (call_at 200) ∷ ended removed ∷ called (call_at 1899) ∷ []) idle (omega arith)
      first_starts ((omega arith, omega arith), (tt, ((omega arith, omega arith), tt)))
