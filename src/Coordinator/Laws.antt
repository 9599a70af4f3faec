-- ===== src/Coordinator/Laws.antt =====
-- What each operation on intent.json does, on every branch, for a thread that can take the locks.
use bypass_keenetic.Prelude.{
  ℕ, false, Option, none, some, ok, raise, if◌then◌else◌, is_some, ◌≡◌, arith,
}
use bypass_keenetic.Coordinator.World.{
  World, ApplyTicket, Intent, File, absent, malformed, stored, apply_busy, works,
}
use bypass_keenetic.Coordinator.Intents.{
  no_intent, ticket_of, same_ticket, capture, request_manual, requested, current, cancel_manual,
  pending_is, recover_abandoned_manual, recovered,
}

-- The state that a file stands for, if `_state` can read it.
abbrev pub intent_of : File → Option Intent
intent_of absent = some no_intent
intent_of malformed = none
intent_of (stored i) = some i

-- The thread can take both locks, and intent.json is readable and writable.
pub record IsReady (w : World) (i : Intent) : Type 0 where
  pub apply_free : w.apply_lock.blocked ≡ false
  pub intent_free : w.intent_lock.blocked ≡ false
  pub readable : intent_of w.file ≡ some i
  pub can_write : w.writing ≡ works

module _ (w : World) (i : Intent) (ready : IsReady w i) where
  pub capture_lem :
      capture w ≡ (w, if is_some i.pending_manual then raise apply_busy else ok (ticket_of i))
  unfolding capture
  capture_lem = ground arith

  pub request_manual_lem :
      request_manual w ≡ (record w { file = stored (requested i) }, ok (ticket_of (requested i)))
  unfolding request_manual
  request_manual_lem = ground arith

  pub cancel_manual_lem :
      (t : ApplyTicket)
      → cancel_manual t w ≡ (
        (if pending_is i.pending_manual t.generation
            then record w { file = stored (record i { pending_manual = none }) }
            else w),
        ok tt,
      )
  unfolding cancel_manual
  cancel_manual_lem t = ground arith

  pub current_lem : (t : ApplyTicket) → current t w ≡ (w, ok (same_ticket t (ticket_of i)))
  unfolding current
  current_lem t = ground arith

  pub recover_abandoned_manual_lem :
      (floor : ℕ)
      → recover_abandoned_manual floor w ≡ (record w { file = stored (recovered floor i) }, ok tt)
  unfolding recover_abandoned_manual
  recover_abandoned_manual_lem floor = ground arith
