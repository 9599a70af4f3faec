-- ===== src/Coordinator/Balance.antt =====
-- No context manager leaves a lock taken or a context behind, on any path, an exception included.
use bypass_keenetic.Prelude.{
  ℕ, Bool, true, false, none, some, ok, if◌then◌else◌, ◌≡◌, refl, arith, Bool-cases, Option-cases,
  ◌⊎◌, inl, inr, ◌=ℕ◌,
}
use bypass_keenetic.Coordinator.World.{World, ApplyTicket, Context, Intent}
use bypass_keenetic.Coordinator.Exec.{Exec, pure, finally, after, ◌>>=◌, ◌>>◌, with_apply}
use bypass_keenetic.Coordinator.Intents.{capture, request_manual, cancel_manual}
use bypass_keenetic.Coordinator.Scopes.{
  commit_guard, admit, transaction, guarded, admission, accepted_block, close_intent, new_ticket,
  fresh_intent, drop_context, open_context, intent, change_context, nested_mutation, reenter,
  mutation,
}
use bypass_keenetic.Coordinator.ScopeRules.{
  Scope, scope, Moves, Keeps, in_apply, Keeps-bind, Keeps-if, Moves-finally, scope_rules,
}

pub Keeps-capture : {s : Scope} → Keeps s capture
unfolding capture
Keeps-capture = search scope_rules depth 9

pub Keeps-request_manual : {s : Scope} → Keeps s request_manual
unfolding request_manual
Keeps-request_manual = search scope_rules depth 9

pub Keeps-cancel_manual : {s : Scope} (t : ApplyTicket) → Keeps s (cancel_manual t)
unfolding cancel_manual
Keeps-cancel_manual t = search scope_rules depth 9

Keeps-admit :
    {s : Scope} (t : ApplyTicket) (manual : Bool) (i : Intent) → Keeps s (admit t manual i)
unfolding admit
Keeps-admit t manual i = search scope_rules depth 9

-- A block that leaves every scope as it finds it.
abbrev pub IsBalanced : {A : Type 0} → (ApplyTicket → Exec A) → Type 0
IsBalanced body = (s : Scope) (t : ApplyTicket) → Keeps s (body t)

-- `m` first, if it never raises.
Moves-then :
    {A : Type 0} {s t u : Scope} (m : Exec (Unit {0})) (k : Exec A)
    → ((w : World) → (m w).1 ≡ ok tt)
    → Moves s t m
    → Moves t u k
    → Moves s u (m >> k)
Moves-then m k total km kk = record { at = λ w h. rw (total w, after) (kk.at (m w).0 (km.at w h)) }

abbrev at_depth : ℕ → Scope → Scope
at_depth d s = record s { context_depth = some d }

Moves-change_context :
    (s : Scope) (f : Context → Context) (a b : ℕ)
    → ((c : Context) → c.depth ≡ a → (f c).depth ≡ b)
    → Moves (at_depth a s) (at_depth b s) (change_context f)
unfolding change_context
Moves-change_context s f a b kf = record { at = λ w h. change_at w h (Option-cases w.context) }
  where
    change_at :
        (w : World)
        → scope w ≡ at_depth a s
        → (w.context ≡ none) ⊎ ((c : Context) × (w.context ≡ some c))
        → scope (change_context f w).0 ≡ at_depth b s
    change_at w h (inl e) = ground arith
    change_at w h (inr (c, e)) = ground (arith, kf c)

change_context-total : (f : Context → Context) (w : World) → (change_context f w).1 ≡ ok tt
unfolding change_context
change_context-total f w = ground arith

Keeps-transaction :
    {A : Type 0} {s : Scope} (body : ApplyTicket → Exec A) (t : ApplyTicket) (manual : Bool)
    → ((u : ApplyTicket) → Keeps (in_apply s) (body u))
    → Keeps s (transaction t manual body)
unfolding transaction admission
Keeps-transaction {s} body t manual kb =
    Moves-finally {t = s} (with_apply (admission t manual >>= body))
      (if manual then cancel_manual t else pure tt) (search (scope_rules, Keeps-admit, kb) depth 9)
      (search (scope_rules, Keeps-cancel_manual) depth 9)

module _ {A : Type 0} (body : ApplyTicket → Exec A) where
  Keeps-guarded : {s : Scope} (t : ApplyTicket) → IsBalanced body → Keeps s (guarded t (body t))
  unfolding guarded
  Keeps-guarded t kb = search (scope_rules, kb) depth 9

  -- `commit_guard` around a balanced block leaves the locks and the context as it finds them.
  pub Keeps-commit_guard :
      (s : Scope) (t : ApplyTicket) → IsBalanced body → Keeps s (commit_guard t (body t))
  unfolding commit_guard
  Keeps-commit_guard s t kb = record { at = λ w h. ground (arith, (Keeps-guarded t kb).at w h) }

  Keeps-accepted_block :
      (s : Scope) (t : ApplyTicket) → IsBalanced body → Keeps (at_depth 0 s) (accepted_block body t)
  unfolding accepted_block
  Keeps-accepted_block s t kb =
      Moves-then _ _ (change_context-total _) (Moves-change_context s _ 0 1 (λ c h. refl))
        (Moves-finally (body t) _ (kb _ t) (Moves-change_context s _ 1 0 (λ c h. refl)))

  Keeps-nested :
      (s : Scope) (c : Context)
      → IsBalanced body
      → c.depth ≡ 0
      → Keeps (at_depth 0 s) (nested_mutation c false body)
  unfolding nested_mutation
  Keeps-nested s c kb e =
      let k : Keeps (at_depth 0 s) (
          finally (transaction c.ticket c.manual (accepted_block body))
            (change_context (λ k. record k { manual = false }))) =
        Moves-finally _ _
          (Keeps-transaction _ c.ticket c.manual (λ u. Keeps-accepted_block (in_apply s) u kb))
          (Moves-change_context s _ 0 0 (λ c h. h)) in
      record { at = λ w h. ground (arith, k.at w h) }

  nested_balance :
      {s : Scope} (c : Context) (manual : Bool) (w : World)
      → IsBalanced body
      → scope w ≡ s
      → w.context ≡ some c
      → scope (nested_mutation c manual body w).0 ≡ s
  nested_balance c true w kb h e = unfold nested_mutation in h
  nested_balance {s} c false w kb h e = elim (Bool-cases (c.depth =ℕ 0)) [
    | inl z ↦ ground (arith, (Keeps-nested s c kb (ground arith)).at w)
    | inr n ↦ unfold nested_mutation in rw n ((kb s c.ticket).at w h)
  ]

  reenter_balance :
      {s : Scope} (w : World)
      → IsBalanced body
      → scope w ≡ s
      → (w.context ≡ none) ⊎ ((c : Context) × (w.context ≡ some c))
      → scope (reenter body w).0 ≡ s
  unfolding reenter
  reenter_balance w kb h (inl e) = ground arith
  reenter_balance w kb h (inr (c, e)) = ground (arith, nested_balance c false w kb h e)

  Keeps-reenter : {s : Scope} → IsBalanced body → Keeps s (reenter body)
  Keeps-reenter kb = record { at = λ w h. reenter_balance w kb h (Option-cases w.context) }

abbrev outside : Scope → Scope
outside s = record s { context_depth = none }

close_balance :
    (s : Scope) (manual : Bool) (t : ApplyTicket) (w : World)
    → scope w ≡ at_depth 0 s
    → (w.context ≡ none) ⊎ ((c : Context) × (w.context ≡ some c))
    → scope (close_intent manual t w).0 ≡ outside s
unfolding close_intent drop_context
close_balance s manual t w h (inl e) = ground arith
close_balance s true t w h (inr (c, e)) =
    rw (e, close_intent)
      ((Keeps-cancel_manual {s = outside s} t).at (record w { context = none }) (ground arith))
close_balance s false t w h (inr (c, e)) = rw (e, close_intent) (ground arith)

Moves-close_intent :
    (s : Scope) (manual : Bool) (t : ApplyTicket)
    → Moves (at_depth 0 s) (outside s) (close_intent manual t)
Moves-close_intent s manual t = record {
  at = λ w h. close_balance s manual t w h (Option-cases w.context);
}

module _ {A : Type 0} (body : ApplyTicket → Exec A) (kb : IsBalanced body) where
  Keeps-fresh_intent :
      (s : Scope) (manual : Bool) (t : ApplyTicket) → Keeps (outside s) (fresh_intent manual body t)
  unfolding fresh_intent open_context
  Keeps-fresh_intent s manual t =
      Moves-then (open_context _) _ (λ w. refl) (record { at = λ w h. ground arith })
        (Moves-finally (body t) _ (kb (at_depth 0 s) t) (Moves-close_intent s manual t))

  intent_balance :
      {s : Scope} (manual : Bool) (w : World)
      → scope w ≡ s
      → (w.context ≡ none) ⊎ ((c : Context) × (w.context ≡ some c))
      → scope (intent manual body w).0 ≡ s
  unfolding intent new_ticket
  intent_balance {s} manual w h (inl e) =
      let k : Keeps (outside s) (new_ticket manual >>= fresh_intent manual body) =
        Keeps-bind _ _ (Keeps-if manual request_manual capture Keeps-request_manual Keeps-capture)
          (Keeps-fresh_intent s manual) in
      ground (arith, k.at w)
  intent_balance true w h (inr (c, e)) = ground arith
  intent_balance {s} false w h (inr (c, e)) = ground (arith, (kb s c.ticket).at w h)

  -- `intent` around a block that leaves every scope as it finds it does so too: whatever is
  -- raised, no lock stays taken, and the thread has a context afterwards exactly if it had one.
  pub Keeps-intent : (s : Scope) (manual : Bool) → Keeps s (intent manual body)
  Keeps-intent s manual = record { at = λ w h. intent_balance manual w h (Option-cases w.context) }

module _ {A : Type 0} (body : ApplyTicket → Exec A) (kb : IsBalanced body) where
  mutation_balance :
      {s : Scope} (manual : Bool) (w : World)
      → scope w ≡ s
      → (w.context ≡ none) ⊎ ((c : Context) × (w.context ≡ some c))
      → scope (mutation manual body w).0 ≡ s
  unfolding mutation
  mutation_balance {s} manual w h (inl e) =
      ground
        (arith, (Keeps-intent (λ _. reenter body) (λ u _. Keeps-reenter body kb) s manual).at w h)
  mutation_balance manual w h (inr (c, e)) = ground (arith, nested_balance body c manual w kb h e)

  -- `mutation`, nested in another intent or not, and whatever it raises: if its block
  -- leaves the depths of the two locks and of the context as it found them, so does `mutation`.
  pub Keeps-mutation : (s : Scope) (manual : Bool) → Keeps s (mutation manual body)
  Keeps-mutation s manual = record {
    at = λ w h. mutation_balance manual w h (Option-cases w.context);
  }
