-- ===== src/Update/Advance.antt =====
-- The progress of an update that runs.
use bypass_keenetic.Prelude.{
  ℕ, ◌≤◌, true, none, some, List, [], ◌∷◌, String, ◌≡◌, refl, arith, eq_iff, if◌then◌else◌,
  Option-cases, inl, inr, Bool-cases, subst, sym, ap, ◌∙◌,
}
use bypass_keenetic.WebCommand.State.{UpdateState, CommandState}
use bypass_keenetic.Update.Status.{
  Files, Writes, Call, Status, read_update_status, default_status, normalize_update_status,
  sync_matched, sync_web_command_state, start_of, is_same_run, next_status, write_update_status,
}

sync_matched-status :
    (w : Writes) (now : ℕ) (u : UpdateState) (s : CommandState) (f : Files)
    → (sync_matched w now u s f).0.status ≡ f.status
unfolding sync_matched
sync_matched-status w now u s f = ground arith

-- The page and the job are no part of the status.
sync-status :
    (w : Writes) (now : ℕ) (u : UpdateState) (f : Files)
    → (sync_web_command_state w now u f).0.status ≡ f.status
unfolding sync_web_command_state
sync-status w now u f = elim (Option-cases f.web) [
  | inl e ↦ rw e refl
  | inr (s, e) ↦ rw e (ground (arith, sync_matched-status w now u s f))
]

pub write-status :
    (w : Writes) (now : ℕ) (c : Call) (f : Files)
    → (write_update_status w now c f).0.status ≡ (
        if w.status_written
        then some (next_status c now (read_update_status f).report)
        else f.status)
unfolding write_update_status
write-status w now c f = ground (
  arith,
  sync-status w now (next_status c now (read_update_status f).report).report
      (record f { status = some (next_status c now (read_update_status f).report) }),
  sync-status w now (next_status c now (read_update_status f).report).report f,
)

-- The report that a reader of the file gets.
abbrev pub current : Files → UpdateState
current f = (read_update_status f).report

-- A call that reports the running command, without a start of its own.
abbrev pub IsReport : String → Call → Type 0
IsReport command c = (c.command ≡ command) × (c.running ≡ true) × (c.started_at ≡ none)

same_run_lem :
    (command : String) (now : ℕ) (c : Call) (u : UpdateState)
    → IsReport command c
    → u.running ≡ true
    → u.command ≡ command
    → is_same_run c (start_of c now u) u ≡ true
unfolding is_same_run start_of
same_run_lem command now c u (k, r, s) h e = ground (arith, eq_iff u.command c.command)

-- The update runs, under this command, with a progress between the bounds.
abbrev pub Runs : String → ℕ → UpdateState → Type 0
Runs command low u =
    (u.running ≡ true) × (u.command ≡ command) × (low ≤ u.progress) × (u.progress ≤ 100)

next-Runs :
    (command : String) (now low : ℕ) (c : Call) (u : UpdateState)
    → IsReport command c
    → Runs command low u
    → Runs command low (normalize_update_status (next_status c now u)).report
unfolding next_status normalize_update_status
next-Runs command now low c u (k, r, s) (h, e, a, b) =
    let same = same_run_lem command now c u (k, r, s) h e in (r, k, ground arith, omega arith)

-- Calls one after the other, each with its time and its writes.
unfoldable pub write_all : List (Writes × ℕ × Call) → Files → Files
write_all [] f = f
write_all ((w, now, c) ∷ calls) f = write_all calls (write_update_status w now c f).0

unfoldable pub AllReport : String → List (Writes × ℕ × Call) → Type 0
AllReport command [] = Unit
AllReport command ((w, now, c) ∷ calls) = IsReport command c × AllReport command calls

write-Runs :
    (command : String) (w : Writes) (now low : ℕ) (c : Call) (f : Files)
    → IsReport command c
    → Runs command low (current f)
    → Runs command low (current (write_update_status w now c f).0)
unfolding read_update_status
write-Runs command w now low c f r h = elim (Bool-cases w.status_written) [
  | inl e ↦
      subst
        (λ o.
          Runs command low
            (elim o as (λ x. Status) [
              | none ↦ default_status
              | some s ↦ normalize_update_status s
            ]).report)
        (sym (
          write-status w now c f
          ∙ ap (λ b. if b then some (next_status c now (current f)) else f.status) e))
        (next-Runs command now low c (current f) r h)
  | inr e ↦
      subst
        (λ o.
          Runs command low
            (elim o as (λ x. Status) [
              | none ↦ default_status
              | some s ↦ normalize_update_status s
            ]).report)
        (sym (
          write-status w now c f
          ∙ ap (λ b. if b then some (next_status c now (current f)) else f.status) e))
        h
]

-- While an update runs, whatever reports of it come and whichever of their writes fail, the status file
-- shows it as running, and its progress stays at most 100 and never falls. Condition: the reports are
-- those of the running command, without a start of their own.
pub write_all-Runs :
    (command : String) (calls : List (Writes × ℕ × Call)) (f : Files) (low : ℕ)
    → AllReport command calls
    → Runs command low (current f)
    → Runs command low (current (write_all calls f))
unfolding write_all AllReport
write_all-Runs command [] f low r h = h
write_all-Runs command ((w, now, c) ∷ calls) f low (r, rs) h =
    write_all-Runs command calls (write_update_status w now c f).0 low rs
      (write-Runs command w now low c f r h)
