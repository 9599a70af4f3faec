-- ===== src/Jobs/Single.antt =====
-- The processes that calls start within the time after which a job counts as lost.
use bypass_keenetic.Prelude.{
  ℕ, suc, ◌+◌, ◌<◌, ◌≤◌, Bool, true, some, List, [], ◌∷◌, Result, ok, ◌≡◌, ◌⊎◌, inl, inr, refl,
  arith, sym, ap, subst, All, Bool-cases,
}
use bypass_keenetic.Jobs.Start.{
  Command, Job, Machine, Faults, StartError, busy, job_of, Ending, removed, cleared, end_of_job,
  start_background_command,
}

-- One call, by the web page or the Telegram bot.
pub record Attempt : Type 0 where
  pub command : Command
  pub seen : ℕ
  pub noted : ℕ
  pub faults : Faults

unfoldable pub attempt : ℕ → Attempt → Machine → Machine × Result StartError Bool
attempt stale_after a m = start_background_command a.command stale_after a.seen a.noted a.faults m

-- What happens to the job file, one after another: a call, or the end of the job.
pub data Happening : Type 0 where
  called : Attempt → Happening
  ended : Ending → Happening

unfoldable pub happens : ℕ → List Happening → Machine → Machine
happens stale_after [] m = m
happens stale_after (called a ∷ more) m = happens stale_after more (attempt stale_after a m).0
happens stale_after (ended e ∷ more) m = happens stale_after more (end_of_job e m)

unfoldable pub endings : List Happening → ℕ
endings [] = 0
endings (called a ∷ more) = endings more
endings (ended e ∷ more) = suc (endings more)

-- The calls are made from this time on, and before a job of this time counts as lost.
abbrev pub InTime : ℕ → ℕ → Happening → Type 0
InTime stale_after since (called a) = (since ≤ a.noted) × (a.seen < since + stale_after)
InTime stale_after since (ended e) = Unit {0}

-- The file has a running job, started at this time or later.
abbrev Held : ℕ → Machine → Type 0
Held since m =
    (job : Job) × (m.job_file ≡ some job) × (job.running ≡ true) × (since ≤ job.started_at)

-- The processes are at most so many; and less, unless a job is held.
abbrev Spent : ℕ → ℕ → Machine → Type 0
Spent since limit m = (Held since m × (m.started ≤ limit)) ⊎ (m.started < limit)

Held-refuses :
    (stale_after since : ℕ) (a : Attempt) (m : Machine)
    → 1 ≤ since
    → a.seen < since + stale_after
    → Held since m
    → (attempt stale_after a m).0 ≡ m
unfolding attempt start_background_command busy
Held-refuses stale_after since a m one t (job, f, r, s) = ground arith

attempt-Spent :
    (stale_after since limit : ℕ) (a : Attempt) (m : Machine)
    → 1 ≤ since
    → InTime stale_after since (called a)
    → Spent since limit m
    → Spent since limit (attempt stale_after a m).0
unfolding attempt start_background_command job_of
attempt-Spent stale_after since limit a m one t (inl (held, n)) =
    subst (Spent since limit) (sym (Held-refuses stale_after since a m one t.1 held))
      (inl (held, n))
attempt-Spent stale_after since limit a m one t (inr n) =
    elim (Bool-cases (busy stale_after a.seen m.job_file)) [
      | inl refused ↦ inr (ground arith)
      | inr free ↦ elim (Bool-cases a.faults.write_works) [
        | inr lost ↦ inr (ground arith)
        | inl written ↦ elim (Bool-cases a.faults.popen_works) [
          | inr failed ↦ inr (ground arith)
          | inl started ↦ inl ((job_of a.command a.noted, ground arith, refl, t.0), ground arith)
        ]
      ]
    ]

end-Spent :
    (since limit : ℕ) (e : Ending) (m : Machine)
    → Spent since limit m
    → Spent since (suc limit) (end_of_job e m)
unfolding end_of_job
end-Spent since limit removed m (inl (h, n)) = inr (omega (arith, n))
end-Spent since limit removed m (inr n) = inr (omega (arith, n))
end-Spent since limit cleared m (inl (h, n)) = inr (omega (arith, n))
end-Spent since limit cleared m (inr n) = inr (omega (arith, n))

happens-Spent :
    (stale_after since limit : ℕ) (run : List Happening) (m : Machine)
    → 1 ≤ since
    → All (InTime stale_after since) run
    → Spent since limit m
    → (happens stale_after run m).started ≤ limit + endings run
unfolding happens endings
happens-Spent stale_after since limit [] m one t (inl (h, n)) = omega (arith, n)
happens-Spent stale_after since limit [] m one t (inr n) = omega (arith, n)
happens-Spent stale_after since limit (called a ∷ run) m one (t, ts) s =
    happens-Spent stale_after since limit run (attempt stale_after a m).0 one ts
      (attempt-Spent stale_after since limit a m one t s)
happens-Spent stale_after since limit (ended e ∷ run) m one (t, ts) s = omega (
  arith,
  happens-Spent stale_after since (suc limit) run (end_of_job e m) one ts
      (end-Spent since limit e m s),
)

started_lem :
    (stale_after : ℕ) (a : Attempt) (m : Machine)
    → (attempt stale_after a m).1 ≡ ok true
    → (attempt stale_after a m).0
      ≡ record { job_file = some (job_of a.command a.noted); started = m.started + 1 }
unfolding attempt start_background_command
started_lem stale_after a m h = ground arith

started-Spent :
    (stale_after : ℕ) (a : Attempt) (m : Machine)
    → (attempt stale_after a m).1 ≡ ok true
    → Spent a.noted (m.started + 1) (attempt stale_after a m).0
unfolding job_of
started-Spent stale_after a m h =
    subst (Spent a.noted (m.started + 1)) (sym (started_lem stale_after a m h))
      (inl ((job_of a.command a.noted, refl, refl, omega arith), omega arith))

-- A call of `start_background_command` that returns True has started one process. In whatever follows, calls
-- and ends of the job, which is the removal of its file or the clearing of `running`, at most one more
-- process is started for each end. Conditions: the calls come one after another, none between another's
-- reading and writing of the job file; they note no earlier time than the first call noted, which is not 0;
-- and they are made before `stale_after` seconds have passed since then.
pub attempts-start :
    (stale_after : ℕ) (a : Attempt) (run : List Happening) (m : Machine)
    → 1 ≤ a.noted
    → (attempt stale_after a m).1 ≡ ok true
    → All (InTime stale_after a.noted) run
    → ((attempt stale_after a m).0.started ≡ m.started + 1)
      × ((happens stale_after run (attempt stale_after a m).0).started
          ≤ m.started + 1 + endings run)
attempts-start stale_after a run m one h t = (
  ap (λ x. x.started) (started_lem stale_after a m h),
  happens-Spent stale_after a.noted (m.started + 1) run (attempt stale_after a m).0 one t
      (started-Spent stale_after a m h),
)
