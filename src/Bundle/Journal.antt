-- ===== src/Bundle/Journal.antt =====
-- `_load` and `_check_contents`.
use bypass_keenetic.Prelude.{
  ℕ, ◌+◌, Bool, true, false, not, ◌&&◌, ◌||◌, Option, none, some, List, [], ◌∷◌, String, ◌==◌,
  if◌then◌else◌, length, leb, ◌=ℕ◌, any, Result, ok, raise, ◌>>=◌,
}
use bypass_keenetic.Bundle.Disk.{
  Bytes, Meta, Files, Entry, Phase, prepared, committed, other_phase, Journal, JournalFile, absent,
  unreadable, stored, Disk, Error, apply_state_error, read_regular, bytes_eq,
}

-- `len(value or b'')`
abbrev pub size : Option Bytes → ℕ
size none = 0
size (some b) = length b

-- The loop of `_load` over the entries: the tests on each, with the paths seen and the running
-- total. The typed fields make the tests on the types of 'mode', 'uid' and 'gid' pass.
unfoldable pub valid_entries : List String → ℕ → List String → ℕ → List Entry → Bool
valid_entries allowed limit seen total [] = true
valid_entries allowed limit seen total (e ∷ es) =
    let total' = total + (size e.old + length e.new) in
    any (λ p. p == e.path) allowed
    && not (any (λ p. p == e.path) seen)
    && leb e.info.mode 511
    && leb total' limit
    && valid_entries allowed limit (e.path ∷ seen) total' es

known_phase : Phase → Bool
known_phase prepared = true
known_phase committed = true
known_phase other_phase = false

nonempty : List Entry → Bool
nonempty [] = false
nonempty (e ∷ es) = true

unfoldable pub valid_journal : List String → ℕ → Journal → Bool
unfolding valid_entries known_phase nonempty
valid_journal allowed limit j =
    j.schema =ℕ 1
    && known_phase j.phase
    && nonempty j.entries
    && valid_entries allowed limit [] 0 j.entries

load_file : List String → ℕ → JournalFile → Result Error (Option Journal)
load_file allowed limit absent = ok none
load_file allowed limit unreadable = raise apply_state_error
load_file allowed limit (stored j) =
    if valid_journal allowed limit j then ok (some j) else raise apply_state_error

-- `_load`
unfoldable pub load : List String → ℕ → Disk → Result Error (Option Journal)
unfolding load_file
load allowed limit d = load_file allowed limit d.journal

-- The content that `_regular` returned.
abbrev pub content : Option (Bytes × Meta) → Option Bytes
content none = none
content (some (b, m)) = some b

-- `_digest`, with `sha256` for hashlib's hexdigest; `none` stands for Python's None.
module _ (sha256 : Bytes → Bytes) where
  abbrev pub digest : Option Bytes → Option Bytes
  digest none = none
  digest (some b) = some (sha256 b)

  abbrev pub same_digest : Option Bytes → Option Bytes → Bool
  same_digest none none = true
  same_digest none (some t) = false
  same_digest (some s) none = false
  same_digest (some s) (some t) = bytes_eq s t

  -- The current content is the old or the new one of the entry.
  unfoldable pub familiar : Option Bytes → Entry → Bool
  familiar c e =
      same_digest (digest c) (digest e.old) || same_digest (digest c) (digest (some e.new))

  -- `_check_contents`
  unfoldable pub check_contents : ℕ → Files → List Entry → Result Error (Unit {0})
  unfolding read_regular familiar
  check_contents limit f [] = ok tt
  check_contents limit f (e ∷ es) =
      let rest = check_contents limit f es in
      do
        current ← read_regular limit (f e.path)
        if familiar (content current) e then rest else raise apply_state_error
