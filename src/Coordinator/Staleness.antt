-- ===== src/Coordinator/Staleness.antt =====
-- What other threads and processes do to intent.json between two steps of a holder of a ticket.
use bypass_keenetic.Prelude.{
  ℕ, ◌≤◌, ◌<◌, Bool, true, false, none, some, ok, raise, if◌then◌else◌, is_some, ◌≡◌, refl, arith,
  ◌||◌, Bool-cases, inl, inr, not, ◌&&◌, List, [], ◌∷◌,
}
use bypass_keenetic.Coordinator.World.{works, World, ApplyTicket, Intent, File, stale_apply}
use bypass_keenetic.Coordinator.Exec.{Exec, pure, ◌>>=◌, with_intent}
use bypass_keenetic.Coordinator.Intents.{
  ticket_of, same_ticket, request_manual, requested, current, cancel_manual, pending_is,
  recover_abandoned_manual, recovered, read_state,
}
use bypass_keenetic.Coordinator.Scopes.{commit_guard, admit, advanced}
use bypass_keenetic.Coordinator.Laws.{
  IsReady, intent_of, request_manual_lem, cancel_manual_lem, recover_abandoned_manual_lem,
  current_lem,
}

-- One step of another thread or process: a manual request, the end of a manual intent, the
-- admission of a background transaction, the recovery at startup.
pub data Event : Type 0 where
  request : Event
  cancel : ApplyTicket → Event
  background : ApplyTicket → Event
  recovery : ℕ → Event

-- The code that the step runs.
unfoldable pub action : Event → Exec (Unit {0})
unfolding request_manual cancel_manual recover_abandoned_manual admit read_state with_intent
action request = request_manual >>= λ _. pure tt
action (cancel t) = cancel_manual t
action (background t) = with_intent (do i ← read_state; admit t false i) >>= λ _. pure tt
action (recovery floor) = recover_abandoned_manual floor

-- The other thread sees the same file, and can take the locks.
abbrev pub visitor : File → World
visitor f = record {
  file = f;
  writing = works;
  apply_lock = record { depth = 0; blocked = false };
  intent_lock = record { depth = 0; blocked = false };
  context = none;
}

-- The file after the steps of others.
unfoldable pub run : List Event → File → File
unfolding action
run [] f = f
run (e ∷ es) f = run es (action e (visitor f)).0.file

-- The specification of a step, on the state alone.
unfoldable pub next : Event → Intent → Intent
next request i = requested i
next (cancel t) i =
    if pending_is i.pending_manual t.generation then record i { pending_manual = none } else i
next (background t) i =
    if same_ticket t (ticket_of i) && not (is_some i.pending_manual) then advanced i else i
next (recovery floor) i = recovered floor i

visitor-IsReady : (f : File) (i : Intent) → intent_of f ≡ some i → IsReady (visitor f) i
visitor-IsReady f i h = record {
  apply_free = refl;
  intent_free = refl;
  readable = h;
  can_write = refl;
}

-- The code of a step does what `next` says.
pub action-next :
    (e : Event) (f : File) (i : Intent)
    → intent_of f ≡ some i
    → intent_of (action e (visitor f)).0.file ≡ some (next e i)
unfolding action next
action-next request f i h = ground (arith, request_manual_lem (visitor f) i (visitor-IsReady f i h))
action-next (cancel t) f i h =
    ground (arith, cancel_manual_lem (visitor f) i (visitor-IsReady f i h) t)
action-next (background t) f i h = ground arith
action-next (recovery floor) f i h =
    ground (arith, recover_abandoned_manual_lem (visitor f) i (visitor-IsReady f i h) floor)

unfoldable pub next_all : List Event → Intent → Intent
unfolding next
next_all [] i = i
next_all (e ∷ es) i = next_all es (next e i)

run-next :
    (es : List Event) (f : File) (i : Intent)
    → intent_of f ≡ some i
    → intent_of (run es f) ≡ some (next_all es i)
unfolding run next_all
run-next [] f i h = h
run-next (e ∷ es) f i h = run-next es _ _ (action-next e f i h)

-- No step lowers the generation or the epoch.
next_mono :
    (e : Event) (i : Intent)
    → (i.generation ≤ (next e i).generation) × (i.manual_epoch ≤ (next e i).manual_epoch)
unfolding next
next_mono e i = ground arith

next_all_mono :
    (es : List Event) (i : Intent)
    → (i.generation ≤ (next_all es i).generation) × (i.manual_epoch ≤ (next_all es i).manual_epoch)
unfolding next_all
next_all_mono [] i = omega arith
next_all_mono (e ∷ es) i = omega (arith, next_mono e i, next_all_mono es (next e i))

-- Whether the step is accepted as a new intent.
unfoldable pub moves : Event → Intent → Bool
moves request i = true
moves (cancel t) i = false
moves (background t) i = same_ticket t (ticket_of i) && not (is_some i.pending_manual)
moves (recovery floor) i = true

-- Whether one of the steps is accepted as a new intent, from the state that the earlier ones leave.
unfoldable pub moved : List Event → Intent → Bool
unfolding moves next
moved [] i = false
moved (e ∷ es) i = moves e i || moved es (next e i)

next-keeps : (e : Event) (i : Intent) → moves e i ≡ false → ticket_of (next e i) ≡ ticket_of i
unfolding next moves
next-keeps request i h = cc
next-keeps (cancel t) i h = ground arith
next-keeps (background t) i h = ground arith
next-keeps (recovery floor) i h = cc

next-raises : (e : Event) (i : Intent) → moves e i ≡ true → i.generation < (next e i).generation
unfolding next moves
next-raises request i h = omega arith
next-raises (cancel t) i h = cc
next-raises (background t) i h = ground arith
next-raises (recovery floor) i h = ground arith

moved-raises :
    (es : List Event) (i : Intent) → moved es i ≡ true → i.generation < (next_all es i).generation
unfolding moved next_all
moved-raises [] i h = cc
moved-raises (e ∷ es) i h =
    ground (
      arith,
      next-raises e i,
      next_mono e i,
      next_all_mono es (next e i),
      moved-raises es (next e i),
    )

moved-keeps :
    (es : List Event) (i : Intent) → moved es i ≡ false → ticket_of (next_all es i) ≡ ticket_of i
unfolding moved next_all
moved-keeps [] i h = refl
moved-keeps (e ∷ es) i h = ground (arith, next-keeps e i, moved-keeps es (next e i))

same_ticket-moved :
    (es : List Event) (i : Intent)
    → same_ticket (ticket_of i) (ticket_of (next_all es i)) ≡ not (moved es i)
unfolding same_ticket
same_ticket-moved es i = elim (Bool-cases (moved es i)) [
  | inl h ↦ ground (arith, moved-raises es i)
  | inr h ↦ ground (arith, moved-keeps es i h)
]

-- The thread's world after the steps of others.
abbrev pub later : World → List Event → World
later w es = record w { file = run es w.file }

pub later-IsReady :
    (w : World) (i : Intent) (es : List Event) → IsReady w i → IsReady (later w es) (next_all es i)
later-IsReady w i es ready = record {
  apply_free = ready.apply_free;
  intent_free = ready.intent_free;
  readable = run-next es w.file i ready.readable;
  can_write = ready.can_write;
}

module _ (w : World) (i : Intent) (ready : IsReady w i) (es : List Event) where
  -- A ticket of the state `i` is current after steps of others exactly if none of them was
  -- accepted as a new intent: no manual request, admitted background transaction or recovery.
  -- Conditions: the caller can take both locks, and intent.json can be read and written.
  pub current-run : current (ticket_of i) (later w es) ≡ (later w es, ok (not (moved es i)))
  current-run = rw (current_lem (later w es) _ (later-IsReady w i es ready), same_ticket-moved es i)

  -- A commit under the execution lock with a ticket of the state `i`, after steps of others: if
  -- one of them was accepted as a new intent, the commit raises `StaleApply`, its block does not
  -- run and nothing changes; otherwise the block runs, with intent.lock held.
  -- Conditions: the caller can take both locks, and intent.json can be read and written.
  pub commit_guard-run :
      {A : Type 0} (body : Exec A)
      → 0 < w.apply_lock.depth
      → commit_guard (ticket_of i) body (later w es)
        ≡ (if moved es i then (later w es, raise stale_apply) else with_intent body (later w es))
  unfolding commit_guard
  commit_guard-run body h =
      ground (arith, same_ticket-moved es i, run-next es w.file i ready.readable, ready.intent_free)
