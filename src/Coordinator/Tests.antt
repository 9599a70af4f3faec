-- ===== src/Coordinator/Tests.antt =====
-- Runs of the coordinator, and the theorems at small inputs.
use bypass_keenetic.Prelude.{
  ℕ, true, false, not, none, [], ◌∷◌, ok, raise, ◌≡◌, refl, arith, if◌then◌else◌,
}
use bypass_keenetic.Coordinator.World.{works, World, ApplyTicket, absent, apply_busy, stale_apply}
use bypass_keenetic.Coordinator.Exec.{pure, fail, with_intent}
use bypass_keenetic.Coordinator.Intents.{no_intent, ticket_of, capture, current, request_manual}
use bypass_keenetic.Coordinator.Scopes.{commit_guard, transaction, mutation}
use bypass_keenetic.Coordinator.Laws.{IsReady}
use bypass_keenetic.Coordinator.Staleness.{
  request, cancel, background, moved, later, current-run, commit_guard-run,
}
use bypass_keenetic.Coordinator.ScopeRules.{Scope, Keeps}
use bypass_keenetic.Coordinator.Balance.{Keeps-mutation}
use bypass_keenetic.Coordinator.Lifecycle.{refusal, leaves_pending, while_pending, manual_priority}

abbrev idle : World
idle = record {
  file = absent;
  writing = works;
  apply_lock = record { depth = 0; blocked = false };
  intent_lock = record { depth = 0; blocked = false };
  context = none;
}

-- The thread holds the execution lock.
abbrev holding : World
holding = record idle { apply_lock = record { depth = 1; blocked = false } }

idle-IsReady : IsReady idle no_intent
idle-IsReady = record { apply_free = refl; intent_free = refl; readable = refl; can_write = refl }

holding-IsReady : IsReady holding no_intent
holding-IsReady = record {
  apply_free = refl;
  intent_free = refl;
  readable = refl;
  can_write = refl;
}

abbrev first : ApplyTicket
first = ticket_of no_intent

manual_run : (mutation true pure idle).1 ≡ ok (record { generation = 1; manual_epoch = 1 })
unfolding mutation
manual_run = refl

-- A writer inside a writer shares its generation.
nested_run :
    (mutation false (λ t. mutation false pure) idle).1
    ≡ ok (record { generation = 1; manual_epoch = 0 })
unfolding mutation
nested_run = refl

current-run_example :
    current first (later idle (request ∷ []))
    ≡ (later idle (request ∷ []), ok (not (moved (request ∷ []) no_intent)))
current-run_example = current-run idle no_intent idle-IsReady (request ∷ [])

commit_guard-run_example :
    commit_guard first (pure first) (later holding (request ∷ cancel first ∷ [])) ≡ (
      if moved (request ∷ cancel first ∷ []) no_intent
      then (later holding (request ∷ cancel first ∷ []), raise stale_apply)
      else with_intent (pure first) (later holding (request ∷ cancel first ∷ [])))
commit_guard-run_example =
    commit_guard-run holding no_intent holding-IsReady (request ∷ cancel first ∷ []) (pure first)
      (omega arith)

abbrev outer : Scope
outer = record { apply_depth = 0; intent_depth = 0; context_depth = none }

Keeps-mutation_example : Keeps outer (mutation true (λ t. fail {A = ℕ} stale_apply))
Keeps-mutation_example =
    Keeps-mutation (λ t. fail {A = ℕ} stale_apply) (λ s t. record { at = λ w h. h }) outer true

manual_priority_example :
    ((capture (later (request_manual idle).0 (background first ∷ request ∷ []))).1
      ≡ raise apply_busy)
    × (transaction first false pure
          (later (request_manual idle).0 (background first ∷ request ∷ []))
        ≡ (
          later (request_manual idle).0 (background first ∷ request ∷ []),
          raise (refusal first (while_pending (background first ∷ request ∷ []) no_intent)),
        ))
unfolding leaves_pending
manual_priority_example =
    manual_priority idle no_intent idle-IsReady (background first ∷ request ∷ []) first pure refl
