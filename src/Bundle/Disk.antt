-- ===== src/Bundle/Disk.antt =====
-- The files that a transaction names, its journal, and the faults of a write.
use bypass_keenetic.Prelude.{
  ℕ, Bool, true, false, Option, none, some, List, [], ◌∷◌, String, ◌==◌, if◌then◌else◌, length, ltb,
  ◌=ℕ◌, ◌&&◌, ◌≡◌, refl, arith, ◌↔◌, Result, ok, raise,
}

abbrev pub Bytes : Type 0
Bytes = List ℕ

-- `==` of two contents.
unfoldable pub bytes_eq : Bytes → Bytes → Bool
bytes_eq [] [] = true
bytes_eq [] (y ∷ ys) = false
bytes_eq (x ∷ xs) [] = false
bytes_eq (x ∷ xs) (y ∷ ys) = x =ℕ y && bytes_eq xs ys

bytes_eq_sound : (x y : Bytes) → bytes_eq x y ≡ true → x ≡ y
unfolding bytes_eq
bytes_eq_sound [] [] h = refl
bytes_eq_sound [] (y ∷ ys) h = cc
bytes_eq_sound (x ∷ xs) [] h = cc
bytes_eq_sound (x ∷ xs) (y ∷ ys) h = ground (arith, bytes_eq_sound xs ys)

bytes_eq_refl : (b : Bytes) → bytes_eq b b ≡ true
unfolding bytes_eq
bytes_eq_refl [] = refl
bytes_eq_refl (x ∷ b) = ground (arith, bytes_eq_refl b)

pub bytes_eq_iff : (x y : Bytes) → (bytes_eq x y ≡ true) ↔ (x ≡ y)
bytes_eq_iff x y = (bytes_eq_sound x y, λ e. rw e (bytes_eq_refl y))

-- The permission bits and the owner of a file.
pub record Meta : Type 0 where
  pub mode : ℕ
  pub uid : ℕ
  pub gid : ℕ

pub data Node : Type 0 where
  missing irregular : Node
  regular : Bytes → Meta → Node

abbrev pub Files : Type 0
Files = String → Node

-- One element of the journal's list 'entries', with 'old' and 'new' decoded.
pub record Entry : Type 0 where
  pub path : String
  pub old : Option Bytes
  pub new : Bytes
  pub info : Meta

pub data Phase : Type 0 where
  prepared committed other_phase : Phase

pub record Journal : Type 0 where
  pub schema : ℕ
  pub phase : Phase
  pub entries : List Entry

-- transaction.json: not there, not readable as a journal (not a regular file, too large, not JSON,
-- a missing or mistyped field), or a journal.
pub data JournalFile : Type 0 where
  absent unreadable : JournalFile
  stored : Journal → JournalFile

pub record Disk : Type 0 where
  pub files : Files
  pub journal : JournalFile

-- `ApplyStateError`, and an `OSError`.
pub data Error : Type 0 where
  apply_state_error os_error : Error

-- What happens to one write: it succeeds, it raises with nothing changed, or it raises after the
-- change has reached the disk. The last two are also what a crash of the process leaves.
pub data Fault : Type 0 where
  fine before behind : Fault

-- `_regular` of a target: the content and its metadata.
unfoldable pub read_regular : ℕ → Node → Result Error (Option (Bytes × Meta))
read_regular limit missing = ok none
read_regular limit irregular = raise apply_state_error
read_regular limit (regular data' info) =
    if ltb limit (length data') then raise apply_state_error else ok (some (data', info))

abbrev pub place : String → Node → Files → Files
place p n f q = if p == q then n else f q

-- The node that `_write` makes of a value.
abbrev pub node_of : Option Bytes → Meta → Node
node_of none info = missing
node_of (some b) info = regular b info

-- `_write`
unfoldable pub write : Fault → Entry → Option Bytes → Files → Files × Result Error (Unit {0})
write fine e v f = (place e.path (node_of v e.info) f, ok tt)
write before e v f = (f, raise os_error)
write behind e v f = (place e.path (node_of v e.info) f, raise os_error)

abbrev pub next_fault : List Fault → Fault
next_fault [] = fine
next_fault (x ∷ xs) = x

abbrev pub later_faults : List Fault → List Fault
later_faults [] = []
later_faults (x ∷ xs) = xs

-- The loops of `commit` and `recover` over the entries, with the value that each writes.
unfoldable pub write_all :
    (Entry → Option Bytes) → List Fault → List Entry → Files → Files × Result Error (Unit {0})
unfolding write
write_all v faults [] f = (f, ok tt)
write_all v faults (e ∷ es) f =
    let (f', r) = write (next_fault faults) e (v e) f in
    elim r [ raise x ↦ (f', raise x) | ok _ ↦ write_all v (later_faults faults) es f' ]

-- `_atomic_json` of the journal, and `_clear`.
unfoldable pub set_journal : Fault → JournalFile → Disk → Disk × Result Error (Unit {0})
set_journal fine j d = (record d { journal = j }, ok tt)
set_journal before j d = (d, raise os_error)
set_journal behind j d = (record d { journal = j }, raise os_error)
