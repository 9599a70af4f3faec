-- ===== src/Coordinator/Scopes.antt =====
-- The context managers of `ApplyCoordinator`. The block under `with` is an argument, an action
-- that is given what the manager yields.
use bypass_keenetic.Prelude.{
  ◌+◌, Bool, false, not, none, some, ok, raise, ◌=ℕ◌, if◌then◌else◌, is_some,
}
use bypass_keenetic.Coordinator.World.{
  ApplyTicket, Context, Intent, apply_busy, stale_apply, runtime_error, attribute_error,
}
use bypass_keenetic.Coordinator.Exec.{
  Exec, pure, fail, finally, ◌>>=◌, ◌>>◌, with_apply, with_intent,
}
use bypass_keenetic.Coordinator.Intents.{
  read_state, write_state, write_as, ticket_of, same_ticket, pending_is, capture, request_manual,
  cancel_manual,
}

-- The block of `commit_guard` under intent.lock.
unfoldable pub guarded : {A : Type 0} → ApplyTicket → Exec A → Exec A
unfolding read_state same_ticket with_intent
guarded t body =
    with_intent do i ← read_state; if same_ticket t (ticket_of i) then body else fail stale_apply

-- `commit_guard`
unfoldable pub commit_guard : {A : Type 0} → ApplyTicket → Exec A → Exec A
unfolding guarded
commit_guard t body w =
    if w.apply_lock.depth =ℕ 0 then (w, raise runtime_error) else guarded t body w

-- The state that an accepted background transaction writes.
abbrev pub advanced : Intent → Intent
advanced i = record i { generation = i.generation + 1 }

-- The tests of `transaction` under intent.lock: the ticket that it goes on with.
unfoldable pub admit : ApplyTicket → Bool → Intent → Exec ApplyTicket
unfolding write_state write_as same_ticket pending_is
admit t manual i =
    if not (same_ticket t (ticket_of i))
    then fail stale_apply
    else if manual
    then (if pending_is i.pending_manual t.generation then pure t else fail stale_apply)
    else if is_some i.pending_manual
    then fail apply_busy
    else (do write_state (advanced i); pure (ticket_of (advanced i)))

-- The block of `transaction` under intent.lock.
unfoldable pub admission : ApplyTicket → Bool → Exec ApplyTicket
unfolding admit read_state with_intent
admission t manual = with_intent do i ← read_state; admit t manual i

unfoldable pub transaction : {A : Type 0} → ApplyTicket → Bool → (ApplyTicket → Exec A) → Exec A
unfolding admission cancel_manual with_apply
transaction t manual body =
    finally (with_apply (admission t manual >>= body)) (if manual then cancel_manual t else pure tt)

-- `del self._local.context`
unfoldable pub drop_context : Exec (Unit {0})
drop_context w = elim w.context [
  | none ↦ (w, raise attribute_error)
  | some c ↦ (record w { context = none }, ok tt)
]

unfoldable pub open_context : Context → Exec (Unit {0})
open_context c w = (record w { context = some c }, ok tt)

-- The `finally` block of `intent`.
unfoldable pub close_intent : Bool → ApplyTicket → Exec (Unit {0})
unfolding drop_context cancel_manual
close_intent manual t = do drop_context; if manual then cancel_manual t else pure tt

-- The ticket of a new intent.
unfoldable pub new_ticket : Bool → Exec ApplyTicket
unfolding capture request_manual
new_ticket manual = if manual then request_manual else capture

-- `intent` in a thread that has no context, once it has its ticket.
unfoldable pub fresh_intent : {A : Type 0} → Bool → (ApplyTicket → Exec A) → ApplyTicket → Exec A
unfolding open_context close_intent
fresh_intent manual body t = do
  open_context (record { ticket = t; manual = manual; depth = 0 })
  finally (body t) (close_intent manual t)

unfoldable pub intent : {A : Type 0} → Bool → (ApplyTicket → Exec A) → Exec A
unfolding new_ticket fresh_intent
intent manual body w = elim w.context [
  | some existing ↦ (if manual then fail runtime_error w else body existing.ticket w)
  | none ↦ (new_ticket manual >>= fresh_intent manual body) w
]

-- Assignments to entries of the context.
unfoldable pub change_context : (Context → Context) → Exec (Unit {0})
change_context f w = elim w.context [
  | none ↦ (w, ok tt)
  | some c ↦ (record w { context = some (f c) }, ok tt)
]

-- The block of `mutation` inside its transaction.
unfoldable pub accepted_block : {A : Type 0} → (ApplyTicket → Exec A) → ApplyTicket → Exec A
unfolding change_context
accepted_block body accepted = do
  change_context (λ k. record k { ticket = accepted; depth = 1 })
  finally (body accepted) (change_context (λ k. record k { depth = 0 }))

-- `mutation` in a thread that has a context.
unfoldable pub nested_mutation : {A : Type 0} → Context → Bool → (ApplyTicket → Exec A) → Exec A
unfolding transaction change_context accepted_block
nested_mutation c manual body =
    if manual
    then fail runtime_error
    else if not (c.depth =ℕ 0)
    then body c.ticket
    else finally (transaction c.ticket c.manual (accepted_block body))
        (change_context (λ k. record k { manual = false }))

-- `with self.mutation() as ticket: yield ticket`, inside the intent that `mutation` has opened.
unfoldable pub reenter : {A : Type 0} → (ApplyTicket → Exec A) → Exec A
unfolding nested_mutation
reenter body w = elim w.context [
  | some c ↦ nested_mutation c false body w
  | none ↦ fail attribute_error w
]

unfoldable pub mutation : {A : Type 0} → Bool → (ApplyTicket → Exec A) → Exec A
unfolding intent nested_mutation reenter
mutation manual body w = elim w.context [
  | some c ↦ nested_mutation c manual body w
  | none ↦ intent manual (λ _. reenter body) w
]

unfoldable pub active_ticket : Exec ApplyTicket
active_ticket w = elim w.context [
  | none ↦ (w, raise runtime_error)
  | some c ↦ (if c.depth =ℕ 0 then (w, raise runtime_error) else (w, ok c.ticket))
]
