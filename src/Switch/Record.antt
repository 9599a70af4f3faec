-- ===== src/Switch/Record.antt =====
-- `normalize_transaction`, `begin_transaction`, `update_phase`, `clear_transaction` and the file.
use Prim.Native.String.{count}
use bypass_keenetic.Prelude.{
  ℕ, Bool, true, false, not, ◌&&◌, Option, none, some, List, [], ◌∷◌, String, if◌then◌else◌, ltb,
  ◌=ℕ◌,
}
use bypass_keenetic.Prelude.Text.{strip}
use bypass_keenetic.KeyPool.Catalog.{protocol_display_order, mem}
use bypass_keenetic.Switch.Letters.{lower, all_hex, front}

abbrev pub valid_phases : List String
valid_phases =
    "prepared" ∷ "candidate_installed" ∷ "candidate_verified" ∷ "restore_started" ∷ "restore_failed"
    ∷ []

-- A JSON object: `str(payload.get(key) or '')` of each text, and the times, 0 where none is set and
-- `none` where `float` raises. Times are whole seconds.
pub record Payload : Type 0 where
  pub proto : String
  pub original_id : String
  pub candidate_id : String
  pub trigger : String
  pub phase : String
  pub original_key : String
  pub started_at : Option ℕ
  pub updated_at : Option ℕ

-- What `normalize_transaction` returns; the key 'original_key' is left out for an empty text.
pub record Transaction : Type 0 where
  pub proto : String
  pub original_id : String
  pub candidate_id : String
  pub trigger : String
  pub phase : String
  pub original_key : String
  pub started_at : ℕ
  pub updated_at : ℕ

-- `updated_at or started_at`
unfoldable pub or_started : ℕ → ℕ → ℕ
or_started updated started = if updated =ℕ 0 then started else updated

-- The result, once the times are read.
unfoldable pub timed : Payload → Option ℕ → Option ℕ → Option Transaction
timed p none updated = none
timed p (some started) none = none
timed p (some started) (some updated) =
    let key = strip p.original_key in
    if ltb 16384 (count key)
    then none
    else some (record {
      proto = strip p.proto;
      original_id = lower (strip p.original_id);
      candidate_id = lower (strip p.candidate_id);
      trigger = front 32 (strip p.trigger);
      phase = lower (strip p.phase);
      original_key = key;
      started_at = started;
      updated_at = or_started updated started;
    })

unfoldable pub normalize_transaction : Payload → Option Transaction
unfolding timed
normalize_transaction p =
    let original = lower (strip p.original_id) in
    let candidate = lower (strip p.candidate_id) in
    if not (
      mem (strip p.proto) protocol_display_order && (count original =ℕ 40 && count candidate =ℕ 40))
    then none
    else if not (all_hex original && all_hex candidate)
    then none
    else if not (mem (lower (strip p.phase)) valid_phases)
    then none
    else timed p p.started_at p.updated_at

-- The JSON object that is written for a transaction, as it is read again.
unfoldable pub payload_of : Transaction → Payload
payload_of t = record {
  proto = t.proto;
  original_id = t.original_id;
  candidate_id = t.candidate_id;
  trigger = t.trigger;
  phase = t.phase;
  original_key = t.original_key;
  started_at = some t.started_at;
  updated_at = some t.updated_at;
}

-- Not there; not a JSON object; or one.
pub data TransactionFile : Type 0 where
  missing unreadable : TransactionFile
  stored : Payload → TransactionFile

unfoldable pub load_transaction : TransactionFile → Option Transaction
unfolding normalize_transaction
load_transaction missing = none
load_transaction unreadable = none
load_transaction (stored p) = normalize_transaction p

-- `_write_private_json`: whether `os.replace` is reached is the environment's choice.
unfoldable pub write_private_json : Bool → Transaction → TransactionFile → TransactionFile × Bool
unfolding payload_of
write_private_json false t f = (f, false)
write_private_json true t f = (stored (payload_of t), true)

unfoldable pub begin_with : Bool → Option Transaction → TransactionFile → TransactionFile × Bool
unfolding write_private_json
begin_with written none f = (f, false)
begin_with written (some t) f = write_private_json written t f

-- The payload is that of the arguments; its phase and its times are set here.
unfoldable pub begin_transaction : Bool → Payload → ℕ → TransactionFile → TransactionFile × Bool
unfolding begin_with normalize_transaction
begin_transaction written p now f =
    begin_with written
      (normalize_transaction
        (record p { phase = "prepared"; started_at = some now; updated_at = some now }))
      f

unfoldable pub update_loaded :
    Bool → String → ℕ → Option Transaction → TransactionFile → TransactionFile × Bool
unfolding write_private_json
update_loaded written phase now none f = (f, false)
update_loaded written phase now (some t) f =
    write_private_json written (record t { phase = phase; updated_at = now }) f

unfoldable pub update_phase : Bool → String → ℕ → TransactionFile → TransactionFile × Bool
unfolding update_loaded load_transaction
update_phase written phase now f =
    let p = lower (strip phase) in
    if not (mem p valid_phases)
    then (f, false)
    else update_loaded written p now (load_transaction f) f

-- `os.remove` works, or raises.
unfoldable pub clear_transaction : Bool → TransactionFile → TransactionFile × Bool
clear_transaction works missing = (missing, true)
clear_transaction works unreadable = if works then (missing, true) else (unreadable, false)
clear_transaction works (stored p) = if works then (missing, true) else (stored p, false)
