-- ===== src/Coordinator/Lifecycle.antt =====
-- What a transaction admits, what it leaves behind, and the priority of a manual intent.
use bypass_keenetic.Prelude.{
  ℕ, suc, ◌+◌, ◌≤◌, Bool, true, false, Option, none, some, ok, raise, if◌then◌else◌, is_some, ◌≡◌,
  refl, arith, not, ◌&&◌, List, [], ◌∷◌, all, ltb,
}
use bypass_keenetic.Coordinator.World.{
  World, ApplyTicket, Intent, stored, Lock, acquire, Error, apply_busy, stale_apply,
}
use bypass_keenetic.Coordinator.Exec.{Exec, with_apply}
use bypass_keenetic.Coordinator.Intents.{
  ticket_of, same_ticket, pending_is, requested, request_manual, capture,
}
use bypass_keenetic.Coordinator.Scopes.{admission, advanced, transaction}
use bypass_keenetic.Coordinator.Laws.{IsReady, capture_lem, request_manual_lem}
use bypass_keenetic.Coordinator.Staleness.{
  Event, request, cancel, background, recovery, next, next_all, later, later-IsReady,
}

acquire-free : (l : Lock) → l.blocked ≡ false → acquire l ≡ some (record l { depth = suc l.depth })
unfolding acquire
acquire-free l h = ground arith

-- The state admits a background transaction with the ticket.
unfoldable pub admits : ApplyTicket → Intent → Bool
admits t i = same_ticket t (ticket_of i) && not (is_some i.pending_manual)

-- The error of a background transaction that is not admitted.
unfoldable pub refusal : ApplyTicket → Intent → Error
refusal t i = if same_ticket t (ticket_of i) then apply_busy else stale_apply

-- A thread that can take the execution lock, with one level more of it.
abbrev within : World → World
within w = record w { apply_lock = record w.apply_lock { depth = suc w.apply_lock.depth } }

within-IsReady : (w : World) (i : Intent) → IsReady w i → IsReady (within w) i
within-IsReady w i r = record {
  apply_free = r.apply_free;
  intent_free = r.intent_free;
  readable = r.readable;
  can_write = r.can_write;
}

module _ (w : World) (i : Intent) (ready : IsReady w i) where
  admission_lem :
      (t : ApplyTicket)
      → admission t false w ≡ (
          if admits t i
          then (record w { file = stored (advanced i) }, ok (ticket_of (advanced i)))
          else (w, raise (refusal t i)))
  unfolding admission admits refusal
  admission_lem t = ground arith

module _ (w : World) (i : Intent) (ready : IsReady w i) where
  -- With both locks free and the file of the intent readable and writable, a background
  -- transaction whose ticket is current while no manual intent is pending writes the
  -- next generation and runs its block with that ticket, under the execution lock. Any other
  -- raises, `StaleApply` for an old ticket and else `ApplyBusy`, and changes nothing.
  pub background_transaction :
      {A : Type 0} (t : ApplyTicket) (body : ApplyTicket → Exec A)
      → transaction t false body w ≡ (
          if admits t i
          then with_apply (body (ticket_of (advanced i))) (record w { file = stored (advanced i) })
          else (w, raise (refusal t i)))
  unfolding transaction with_apply
  background_transaction t body = ground (
    arith,
    acquire-free w.apply_lock ready.apply_free,
    admission_lem (within w) i (within-IsReady w i ready) t,
  )

-- Steps of others that leave a manual intent of generation `g` pending: all but the end of that
-- intent or of a later one, and the recovery at startup.
unfoldable pub leaves_pending : ℕ → Event → Bool
leaves_pending g request = true
leaves_pending g (cancel t) = ltb t.generation g
leaves_pending g (background t) = true
leaves_pending g (recovery floor) = false

-- A manual intent of generation `g` or later is pending.
abbrev PendingFrom : ℕ → Option ℕ → Type 0
PendingFrom g none = ⊥
PendingFrom g (some p) = g ≤ p

-- The pending generation is never ahead of the generation.
abbrev PendingTo : ℕ → Option ℕ → Type 0
PendingTo g none = Unit
PendingTo g (some p) = p ≤ g

next-pending :
    (g : ℕ) (e : Event) (i : Intent)
    → leaves_pending g e ≡ true
    → PendingFrom g i.pending_manual
    → PendingTo i.generation i.pending_manual
    → PendingFrom g (next e i).pending_manual
      × PendingTo (next e i).generation (next e i).pending_manual
unfolding leaves_pending next pending_is
next-pending g request i h p q = ground arith
next-pending g (cancel t) i h p q = ground arith
next-pending g (background t) i h p q = ground arith
next-pending g (recovery floor) i h p q = cc

next_all-pending :
    (g : ℕ) (es : List Event) (i : Intent)
    → all (leaves_pending g) es ≡ true
    → PendingFrom g i.pending_manual
    → PendingTo i.generation i.pending_manual
    → PendingFrom g (next_all es i).pending_manual
unfolding next_all
next_all-pending g [] i h p q = p
next_all-pending g (e ∷ es) i h p q =
    let (p', q') = next-pending g e i (ground arith) p q in
    next_all-pending g es (next e i) (ground arith) p' q'

-- The state after a manual request and then steps of others.
abbrev pub while_pending : List Event → Intent → Intent
while_pending es i = next_all es (requested i)

while_pending_lem :
    (es : List Event) (i : Intent)
    → all (leaves_pending (i.generation + 1)) es ≡ true
    → is_some (while_pending es i).pending_manual ≡ true
while_pending_lem es i h =
    ground
      (arith, next_all-pending (i.generation + 1) es (requested i) h (omega arith) (omega arith))

request_manual-IsReady :
    (w : World) (i : Intent) → IsReady w i → IsReady (request_manual w).0 (requested i)
request_manual-IsReady w i ready = rw (request_manual_lem w i ready) (record {
  apply_free = ready.apply_free;
  intent_free = ready.intent_free;
  readable = refl;
  can_write = ready.can_write;
})

module _ (w : World) (i : Intent) (ready : IsReady w i) (es : List Event) where
  -- Between a manual request and its end, whatever manual requests, background attempts and ends
  -- of older manual intents come in between: `capture` raises `ApplyBusy`, and a background
  -- transaction raises with any ticket, does not run its block and changes nothing.
  -- Conditions: the caller can take both locks, and intent.json can be read and written.
  pub manual_priority :
      {A : Type 0} (t : ApplyTicket) (body : ApplyTicket → Exec A)
      → all (leaves_pending (i.generation + 1)) es ≡ true
      → ((capture (later (request_manual w).0 es)).1 ≡ raise apply_busy)
        × (transaction t false body (later (request_manual w).0 es)
            ≡ (later (request_manual w).0 es, raise (refusal t (while_pending es i))))
  manual_priority t body h =
      let r = later-IsReady _ _ es (request_manual-IsReady w i ready) in
      (
        rw (capture_lem _ _ r) (ground (arith, while_pending_lem es i h)),
        rw (background_transaction _ _ r t body)
            (unfold admits in ground (arith, while_pending_lem es i h)),
      )
