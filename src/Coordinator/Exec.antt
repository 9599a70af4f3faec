-- ===== src/Coordinator/Exec.antt =====
-- An action reads and changes the world, and returns a value or raises.
use bypass_keenetic.Prelude.{Result, ok, raise, none, some}
use bypass_keenetic.Coordinator.World.{World, Error, apply_busy, runtime_error, acquire, release}

abbrev pub Exec : Type 0 → Type 0
Exec A = World → World × Result Error A

module _ {A : Type 0} where
  abbrev pub pure : A → Exec A
  pure a w = (w, ok a)

  abbrev pub fail : Error → Exec A
  fail e w = (w, raise e)

  -- `try: m finally: cleanup`: an error of the clean-up replaces the outcome of `m`.
  abbrev pub finish : World × Result Error (Unit {0}) → Result Error A → World × Result Error A
  finish (w, ok _) r = (w, r)
  finish (w, raise e) r = (w, raise e)

  abbrev pub finally : Exec A → Exec (Unit {0}) → Exec A
  finally m cleanup w = let (w', r) = m w in finish (cleanup w') r

infixl 5 ◌>>=◌ ◌>>◌
abbrev pub after : {A B : Type 0} → (A → Exec B) → World × Result Error A → World × Result Error B
after f (w, ok a) = f a w
after f (w, raise e) = (w, raise e)

abbrev pub ◌>>=◌ : {A B : Type 0} → Exec A → (A → Exec B) → Exec B
◌>>=◌ m f w = after f (m w)

abbrev pub ◌>>◌ : {B : Type 0} → Exec (Unit {0}) → Exec B → Exec B
m >> k = m >>= λ _. k

unfoldable pub leave_apply : Exec (Unit {0})
leave_apply w = elim (release w.apply_lock) [
  | none ↦ (w, raise runtime_error)
  | some l ↦ (record w { apply_lock = l }, ok tt)
]

unfoldable pub leave_intent : Exec (Unit {0})
leave_intent w = elim (release w.intent_lock) [
  | none ↦ (w, raise runtime_error)
  | some l ↦ (record w { intent_lock = l }, ok tt)
]

-- `with self.lock:`
unfoldable pub with_apply : {A : Type 0} → Exec A → Exec A
unfolding leave_apply acquire release
with_apply m w = elim (acquire w.apply_lock) [
  | none ↦ (w, raise apply_busy)
  | some l ↦ finally m leave_apply (record w { apply_lock = l })
]

-- `with self._state_lock:`
unfoldable pub with_intent : {A : Type 0} → Exec A → Exec A
unfolding leave_intent acquire release
with_intent m w = elim (acquire w.intent_lock) [
  | none ↦ (w, raise apply_busy)
  | some l ↦ finally m leave_intent (record w { intent_lock = l })
]
