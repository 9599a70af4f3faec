-- ===== src/Switch/Phases.antt =====
-- What a restart finds in the file: the protocol, the ids and the original key that were recorded.
use bypass_keenetic.Prelude.{
  ℕ, Bool, true, false, Option, none, some, List, [], ◌∷◌, String, if◌then◌else◌, ◌≡◌, refl, arith,
  Option-cases, is_some, inl, inr, ap, ◌∙◌,
}
use bypass_keenetic.Prelude.Text.{strip}
use bypass_keenetic.KeyPool.Catalog.{mem}
use bypass_keenetic.Switch.Letters.{lower}
use bypass_keenetic.Switch.Record.{
  valid_phases, Payload, Transaction, TransactionFile, stored, timed, normalize_transaction,
  load_transaction, write_private_json, begin_with, begin_transaction, update_loaded, update_phase,
  clear_transaction, missing, unreadable,
}
use bypass_keenetic.Switch.Normal.{
  valid, read_back, normalize_transaction-valid, normalize_transaction-payload_of,
}

-- What must not change while the transaction runs.
pub record Core : Type 0 where
  pub proto : String
  pub original_id : String
  pub candidate_id : String
  pub original_key : String
  pub started_at : ℕ

unfoldable pub core : Option Transaction → Option Core
core none = none
core (some t) = some (record {
  proto = t.proto;
  original_id = t.original_id;
  candidate_id = t.candidate_id;
  original_key = t.original_key;
  started_at = t.started_at;
})

-- A call of `update_phase`.
pub record Step : Type 0 where
  pub phase : String
  pub now : ℕ
  pub written : Bool

unfoldable pub run_steps : List Step → TransactionFile → TransactionFile
run_steps [] f = f
run_steps (s ∷ ss) f = run_steps ss (update_phase s.written s.phase s.now f).0

load-valid : (f : TransactionFile) (t : Transaction) → load_transaction f ≡ some t → valid t ≡ true
unfolding load_transaction
load-valid missing t h = ground arith
load-valid unreadable t h = ground arith
load-valid (stored p) t h = normalize_transaction-valid p t h

load-write :
    (written : Bool) (t : Transaction) (f : TransactionFile)
    → valid t ≡ true
    → load_transaction (write_private_json written t f).0
      ≡ (if written then some (read_back t) else load_transaction f)
unfolding write_private_json load_transaction
load-write false t f v = refl
load-write true t f v = normalize_transaction-payload_of t v

updated-valid :
    (t : Transaction) (phase : String) (now : ℕ)
    → valid t ≡ true
    → mem phase valid_phases ≡ true
    → valid (record t { phase = phase; updated_at = now }) ≡ true
unfolding valid
updated-valid t phase now v m = ground arith

read_back-core : (t : Transaction) → core (some (read_back t)) ≡ core (some t)
unfolding core read_back
read_back-core t = refl

updated-core :
    (t : Transaction) (phase : String) (now : ℕ)
    → core (some (record t { phase = phase; updated_at = now })) ≡ core (some t)
unfolding core
updated-core t phase now = refl

loaded-core :
    (written : Bool) (phase : String) (now : ℕ) (o : Option Transaction) (f : TransactionFile)
    → load_transaction f ≡ o
    → mem phase valid_phases ≡ true
    → core (load_transaction (update_loaded written phase now o f).0) ≡ core o
unfolding update_loaded
loaded-core written phase now none f e m = ap core e
loaded-core written phase now (some t) f e m = ground (
  arith,
  load-write written (record t { phase = phase; updated_at = now }) f,
  updated-valid t phase now (load-valid f t e) m,
  read_back-core (record t { phase = phase; updated_at = now }),
  e,
  updated-core t phase now,
)

step-core :
    (s : Step) (f : TransactionFile)
    → core (load_transaction (update_phase s.written s.phase s.now f).0) ≡ core (load_transaction f)
unfolding update_phase
step-core s f =
    ground (arith, loaded-core s.written (lower (strip s.phase)) s.now (load_transaction f) f refl)

-- `update_phase`, called any number of times, with any phases, whether its writes succeed or not:
-- `load_transaction` gives a record afterwards exactly if it gave one before, and with the same
-- protocol, ids, original key and start.
pub run_steps-core :
    (ss : List Step) (f : TransactionFile)
    → core (load_transaction (run_steps ss f)) ≡ core (load_transaction f)
unfolding run_steps
run_steps-core [] f = refl
run_steps-core (s ∷ ss) f =
    run_steps-core ss (update_phase s.written s.phase s.now f).0 ∙ step-core s f

-- The record of a payload with a start.
normal-core :
    (p : Payload) (t : Transaction) (now : ℕ)
    → p.started_at ≡ some now
    → normalize_transaction p ≡ some t
    → core (some t)
      ≡ some (record {
        proto = strip p.proto;
        original_id = lower (strip p.original_id);
        candidate_id = lower (strip p.candidate_id);
        original_key = strip p.original_key;
        started_at = now;
      })
unfolding normalize_transaction timed core
normal-core p t now e h = elim (Option-cases p.updated_at) [
  | inl u ↦ ground arith
  | inr (u, v) ↦ ground arith
]

begun-core :
    (written : Bool) (o : Option Transaction) (f : TransactionFile)
    → ((t : Transaction) → o ≡ some t → valid t ≡ true)
    → (begin_with written o f).1 ≡ true
    → (core (load_transaction (begin_with written o f).0) ≡ core o) × (is_some o ≡ true)
unfolding begin_with
begun-core written none f v h = ground arith
begun-core false (some t) f v h = unfold write_private_json in ground arith
begun-core true (some t) f v h = (ap core (load-write true t f (v t refl)) ∙ read_back-core t, refl)

clear-core :
    (works : Bool) (f : TransactionFile)
    → core (load_transaction (clear_transaction works f).0)
      ≡ (if (clear_transaction works f).1 then none else core (load_transaction f))
unfolding clear_transaction load_transaction core
clear-core works missing = refl
clear-core works unreadable = ground arith
clear-core works (stored p) = ground arith

begin-core :
    (written : Bool) (p : Payload) (now : ℕ) (f : TransactionFile)
    → (begin_transaction written p now f).1 ≡ true
    → core (load_transaction (begin_transaction written p now f).0)
      ≡ some (record {
        proto = strip p.proto;
        original_id = lower (strip p.original_id);
        candidate_id = lower (strip p.candidate_id);
        original_key = strip p.original_key;
        started_at = now;
      })
unfolding begin_transaction
begin-core written p now f h =
    let q = record p { phase = "prepared"; started_at = some now; updated_at = some now } in
    let (e, s) = begun-core written (normalize_transaction q) f (normalize_transaction-valid q) h in
    e ∙ there (normalize_transaction q) refl s
  where
    there :
        (o : Option Transaction)
        → normalize_transaction
            (record p { phase = "prepared"; started_at = some now; updated_at = some now })
          ≡ o
        → is_some o ≡ true
        → core o
          ≡ some (record {
            proto = strip p.proto;
            original_id = lower (strip p.original_id);
            candidate_id = lower (strip p.candidate_id);
            original_key = strip p.original_key;
            started_at = now;
          })
    there none e s = ground arith
    there (some t) e s =
        normal-core (record p { phase = "prepared"; started_at = some now; updated_at = some now })
          t now refl e

-- `begin_transaction` that returns True, then any calls of `update_phase`: `load_transaction` gives
-- the protocol, the ids and the original key of the arguments, without white space around them and
-- the ids in lower case, until the file is cleared; `clear_transaction` returns True exactly if
-- nothing is loaded afterwards.
pub begin-steps :
    (written works : Bool) (p : Payload) (now : ℕ) (ss : List Step) (f : TransactionFile)
    → (begin_transaction written p now f).1 ≡ true
    → let after = run_steps ss (begin_transaction written p now f).0 in
      (core (load_transaction after)
        ≡ some (record {
          proto = strip p.proto;
          original_id = lower (strip p.original_id);
          candidate_id = lower (strip p.candidate_id);
          original_key = strip p.original_key;
          started_at = now;
        }))
      × (core (load_transaction (clear_transaction works after).0)
          ≡ (if (clear_transaction works after).1 then none else core (load_transaction after)))
begin-steps written works p now ss f h =
    let g = (begin_transaction written p now f).0 in
    (run_steps-core ss g ∙ begin-core written p now f h, clear-core works (run_steps ss g))
