-- ===== src/Coordinator/ScopeRules.antt =====
-- How an action moves a thread's lock depths and context, one rule for each way to build an action.
use bypass_keenetic.Prelude.{
  ℕ, suc, Bool, true, false, Option, none, some, Result, ok, raise, if◌then◌else◌, ◌≡◌, arith,
  Option-cases, inl, inr,
}
use bypass_keenetic.Coordinator.World.{
  Writing, works, refused, unsynced, World, Context, Error, Intent, Lock, acquire, release,
}
use bypass_keenetic.Coordinator.Exec.{
  Exec, pure, fail, finally, ◌>>=◌, with_apply, with_intent, leave_apply, leave_intent, after,
  finish,
}
use bypass_keenetic.Coordinator.Intents.{read_state, write_state, write_as}

-- How deep the thread is in the locks and in its context.
pub record Scope : Type 0 where
  pub apply_depth : ℕ
  pub intent_depth : ℕ
  pub context_depth : Option ℕ

abbrev pub depth_of : Option Context → Option ℕ
depth_of none = none
depth_of (some c) = some c.depth

abbrev pub scope : World → Scope
scope w = record {
  apply_depth = w.apply_lock.depth;
  intent_depth = w.intent_lock.depth;
  context_depth = depth_of w.context;
}

-- Run in the scope `s`, the action ends in the scope `u`, whether it returns or raises.
pub record Moves {A : Type 0} (s u : Scope) (m : Exec A) : Type 0 where
  pub at : (w : World) → scope w ≡ s → scope (m w).0 ≡ u

abbrev pub Keeps : {A : Type 0} → Scope → Exec A → Type 0
Keeps s m = Moves s s m

pub after-scope :
    {A B : Type 0} {s : Scope} (f : A → Exec B) (p : World × Result Error A)
    → ((a : A) → Keeps s (f a))
    → scope p.0 ≡ s
    → scope (after f p).0 ≡ s
after-scope f (w, ok a) kf h = (kf a).at w h
after-scope f (w, raise e) kf h = h

finish-scope :
    {A : Type 0} {s : Scope} (p : World × Result Error (Unit {0})) (r : Result Error A)
    → scope p.0 ≡ s
    → scope (finish p r).0 ≡ s
finish-scope (w, ok u) r h = h
finish-scope (w, raise e) r h = h

module _ {s : Scope} where
  pub Keeps-pure : {A : Type 0} (a : A) → Keeps s (pure a)
  Keeps-pure a = record { at = λ w h. h }

  pub Keeps-fail : {A : Type 0} (e : Error) → Keeps s (fail {A = A} e)
  Keeps-fail e = record { at = λ w h. h }

  pub Keeps-bind :
      {A B : Type 0} (m : Exec A) (f : A → Exec B)
      → Keeps s m
      → ((a : A) → Keeps s (f a))
      → Keeps s (m >>= f)
  Keeps-bind m f km kf = record { at = λ w h. after-scope f (m w) kf (km.at w h) }

  pub Keeps-if :
      {A : Type 0} (b : Bool) (m n : Exec A) → Keeps s m → Keeps s n → Keeps s (if b then m else n)
  Keeps-if true m n km kn = km
  Keeps-if false m n km kn = kn

pub Moves-finally :
    {A : Type 0} {s t u : Scope} (m : Exec A) (c : Exec (Unit {0}))
    → Moves s t m
    → Moves t u c
    → Moves s u (finally m c)
Moves-finally m c km kc = record {
  at = λ w h. finish-scope (c (m w).0) (m w).1 (kc.at (m w).0 (km.at w h));
}

acquire-depth : (l l' : Lock) → acquire l ≡ some l' → l'.depth ≡ suc l.depth
unfolding acquire
acquire-depth l l' h = ground arith

-- One level deeper in a lock.
abbrev pub in_apply : Scope → Scope
in_apply s = record s { apply_depth = suc s.apply_depth }

abbrev pub in_intent : Scope → Scope
in_intent s = record s { intent_depth = suc s.intent_depth }

Moves-leave_apply : {s : Scope} → Moves (in_apply s) s leave_apply
unfolding leave_apply release
Moves-leave_apply = record { at = λ w h. ground arith }

Moves-leave_intent : {s : Scope} → Moves (in_intent s) s leave_intent
unfolding leave_intent release
Moves-leave_intent = record { at = λ w h. ground arith }

pub Keeps-with_apply :
    {A : Type 0} {s : Scope} (m : Exec A) → Keeps (in_apply s) m → Keeps s (with_apply m)
unfolding with_apply
Keeps-with_apply m km = record {
  at = λ w h. elim (Option-cases (acquire w.apply_lock)) [
    | inl e ↦ rw (e, with_apply) h
    | inr (l, e) ↦
        rw (e, with_apply)
          ((Moves-finally m leave_apply km Moves-leave_apply).at (record w { apply_lock = l })
            (ground (arith, acquire-depth w.apply_lock l e)))
  ];
}

pub Keeps-with_intent :
    {A : Type 0} {s : Scope} (m : Exec A) → Keeps (in_intent s) m → Keeps s (with_intent m)
unfolding with_intent
Keeps-with_intent m km = record {
  at = λ w h. elim (Option-cases (acquire w.intent_lock)) [
    | inl e ↦ rw (e, with_intent) h
    | inr (l, e) ↦
        rw (e, with_intent)
          ((Moves-finally m leave_intent km Moves-leave_intent).at (record w { intent_lock = l })
            (ground (arith, acquire-depth w.intent_lock l e)))
  ];
}

pub Keeps-read_state : {s : Scope} → Keeps s read_state
unfolding read_state
Keeps-read_state = record { at = λ w h. ground arith }

Keeps-write_as : {s : Scope} (a : Writing) (i : Intent) → Keeps s (write_as a i)
unfolding write_as
Keeps-write_as works i = record { at = λ w h. ground arith }
Keeps-write_as refused i = record { at = λ w h. ground arith }
Keeps-write_as unsynced i = record { at = λ w h. ground arith }

pub Keeps-write_state : {s : Scope} (i : Intent) → Keeps s (write_state i)
unfolding write_state
Keeps-write_state i = record { at = λ w h. (Keeps-write_as w.writing i).at w h }

pub ruleset scope_rules = (
  Keeps-pure, Keeps-fail, Keeps-bind, Keeps-if, Keeps-with_apply, Keeps-with_intent,
  Keeps-read_state, Keeps-write_state,
)
