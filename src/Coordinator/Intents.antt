-- ===== src/Coordinator/Intents.antt =====
-- The operations of `ApplyCoordinator` that read or write intent.json under intent.lock.
use bypass_keenetic.Prelude.{
  ℕ, ◌+◌, Bool, false, ◌&&◌, Option, none, some, ok, raise, ◌=ℕ◌, if◌then◌else◌, is_some, max,
}
use bypass_keenetic.Coordinator.World.{
  ApplyTicket, Intent, File, absent, malformed, stored, apply_busy, stale_apply, value_error,
  os_error, Writing, works, refused, unsynced,
}
use bypass_keenetic.Coordinator.Exec.{Exec, pure, fail, ◌>>=◌, ◌>>◌, with_apply, with_intent}

abbrev pub no_intent : Intent
no_intent = record { generation = 0; manual_epoch = 0; pending_manual = none }

-- `_state`
unfoldable pub state_of : File → Exec Intent
state_of absent w = (w, ok no_intent)
state_of malformed w = (w, raise value_error)
state_of (stored i) w = (w, ok i)

unfoldable pub read_state : Exec Intent
unfolding state_of
read_state w = state_of w.file w

unfoldable pub write_as : Writing → Intent → Exec (Unit {0})
write_as works i w = (record w { file = stored i }, ok tt)
write_as refused i w = (w, raise os_error)
write_as unsynced i w = (record w { file = stored i }, raise os_error)

-- `_atomic_json(self._state_path, state)`
unfoldable pub write_state : Intent → Exec (Unit {0})
unfolding write_as
write_state i w = write_as w.writing i w

abbrev pub ticket_of : Intent → ApplyTicket
ticket_of i = record { generation = i.generation; manual_epoch = i.manual_epoch }

-- `==` of two tickets, a frozen dataclass.
unfoldable pub same_ticket : ApplyTicket → ApplyTicket → Bool
same_ticket t u = t.generation =ℕ u.generation && t.manual_epoch =ℕ u.manual_epoch

-- `state['pending_manual'] == generation`
unfoldable pub pending_is : Option ℕ → ℕ → Bool
pending_is none g = false
pending_is (some p) g = p =ℕ g

unfoldable pub capture : Exec ApplyTicket
unfolding read_state with_intent
capture =
    with_intent
      do i ← read_state; if is_some i.pending_manual then fail apply_busy else pure (ticket_of i)

unfoldable pub generation : Exec ℕ
unfolding read_state with_intent
generation = with_intent do i ← read_state; pure i.generation

unfoldable pub token : Exec ApplyTicket
unfolding read_state with_intent
token = with_intent do i ← read_state; pure (ticket_of i)

unfoldable pub cancel_manual : ApplyTicket → Exec (Unit {0})
unfolding read_state write_state pending_is with_intent
cancel_manual t = with_intent do
  i ← read_state
  if pending_is i.pending_manual t.generation
      then write_state (record i { pending_manual = none })
      else pure tt

-- The state that `request_manual` writes.
abbrev pub requested : Intent → Intent
requested i = record {
  generation = i.generation + 1;
  manual_epoch = i.manual_epoch + 1;
  pending_manual = some (i.generation + 1);
}

unfoldable pub request_manual : Exec ApplyTicket
unfolding read_state write_state with_intent
request_manual =
    with_intent do i ← read_state; write_state (requested i); pure (ticket_of (requested i))

unfoldable pub current : ApplyTicket → Exec Bool
unfolding read_state same_ticket with_intent
current t = with_intent do i ← read_state; pure (same_ticket t (ticket_of i))

unfoldable pub require_current : ApplyTicket → Exec (Unit {0})
unfolding current
require_current t = do fresh ← current t; if fresh then pure tt else fail stale_apply

abbrev pub recovered : ℕ → Intent → Intent
recovered floor i = record {
  generation = max i.generation floor + 1;
  manual_epoch = i.manual_epoch + 1;
  pending_manual = none;
}

-- The floor is a natural number, so the check of its type and sign passes.
unfoldable pub recover_abandoned_manual : ℕ → Exec (Unit {0})
unfolding read_state write_state with_apply with_intent
recover_abandoned_manual floor =
    with_apply (with_intent do i ← read_state; write_state (recovered floor i))
