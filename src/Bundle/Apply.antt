-- ===== src/Bundle/Apply.antt =====
-- `ApplyFileBundle.prepare`, `commit` and `recover`. A race during `_regular` and the existence of
-- the journal's directory are not modelled: the caller holds the apply lock.
use bypass_keenetic.Prelude.{
  ℕ, ◌+◌, Bool, true, false, not, Option, none, some, List, [], ◌∷◌, String, ◌==◌, if◌then◌else◌,
  ◌≡◌, refl, arith, ◌≤◌, length, ltb, any, Result, ok, raise, ◌>>=◌,
}
use bypass_keenetic.Bundle.Disk.{
  Bytes, Meta, regular, Files, Entry, Phase, prepared, committed, other_phase, Journal, absent,
  unreadable, stored, Disk, Error, apply_state_error, Fault, read_regular, write_all, bytes_eq,
  bytes_eq_iff, set_journal,
}
use bypass_keenetic.Bundle.Journal.{size, load, check_contents, content}

-- The limit on sizes, the permitted paths, and the owner of new files.
pub record Bundle : Type 0 where
  pub allowed : List String
  pub limit : ℕ
  pub uid : ℕ
  pub gid : ℕ

-- `pending`
unfoldable pub pending : Disk → Bool
pending d = elim d.journal [ absent ↦ false | unreadable ↦ true | stored j ↦ true ]

-- The entry of a target, from what `_regular` returned.
unfoldable pub entry_of : Bundle → String → Bytes → Option (Bytes × Meta) → Entry
entry_of b path desired none = record {
  path = path;
  old = none;
  new = desired;
  info = record { mode = 384; uid = b.uid; gid = b.gid };
}
entry_of b path desired (some (previous, info)) = record {
  path = path;
  old = some previous;
  new = desired;
  info = info;
}

-- The loop of `prepare`.
unfoldable pub entries_of : Bundle → Files → ℕ → List (String × Bytes) → Result Error (List Entry)
unfolding read_regular entry_of
entries_of b f total [] = ok []
entries_of b f total ((path, desired) ∷ updates) =
    if not (any (λ p. p == path) b.allowed)
    then raise apply_state_error
    else read_regular b.limit (f path) >>= λ previous.
        let e : Entry = entry_of b path desired previous in
        let total' : ℕ = total + (length desired + size e.old) in
        let rest : Result Error (List Entry) = entries_of b f total' updates in
        if ltb b.limit total' then raise apply_state_error else rest >>= λ es. ok (e ∷ es)

-- `prepare`; the fault is that of the journal's write.
unfoldable pub prepare :
    Bundle → Fault → List (String × Bytes) → Disk → Disk × Result Error (Unit {0})
unfolding pending entries_of set_journal
prepare b fault updates d =
    if pending d then (d, raise apply_state_error) else elim (entries_of b d.files 0 updates) [
      | raise x ↦ (d, raise x)
      | ok [] ↦ (d, raise apply_state_error)
      | ok (e ∷ es) ↦
          set_journal fault (stored (record { schema = 1; phase = prepared; entries = e ∷ es })) d
    ]

-- What the environment does to a commit: the faults of its writes, and the callback
-- `after_write` on the files, if there is one, with whether it returned True.
pub record Env : Type 0 where
  pub write_faults : List Fault
  pub after_write : Option (Files → Files × Bool)
  pub journal_fault : Fault
  pub clear_fault : Fault

unfoldable pub acknowledge : Option (Files → Files × Bool) → Files → Files × Bool
acknowledge none f = (f, true)
acknowledge (some callback) f = callback f

abbrev pub new_value : Entry → Option Bytes
new_value e = some e.new

-- The `try` block of `commit` once the callback has answered, once the files are written, and
-- from its start.
unfoldable pub seal : Env → Journal → Disk → Bool → Disk × Result Error (Unit {0})
unfolding set_journal
seal env j d true = set_journal env.journal_fault (stored (record j { phase = committed })) d
seal env j d false = (d, raise apply_state_error)

unfoldable pub staged :
    Env → Journal → Disk → Files × Result Error (Unit {0}) → Disk × Result Error (Unit {0})
unfolding acknowledge seal
staged env j d (f, raise x) = (record d { files = f }, raise x)
staged env j d (f, ok _) =
    let (g, accepted) = acknowledge env.after_write f in
    seal env j (record d { files = g }) accepted

unfoldable pub stage : Env → Journal → Disk → Disk × Result Error (Unit {0})
unfolding write_all staged
stage env j d = staged env j d (write_all new_value env.write_faults j.entries d.files)

-- After the `try` statement: `_clear`, or the error that asks for a recovery.
unfoldable pub close : Env → Disk × Result Error (Unit {0}) → Disk × Result Error (Unit {0})
unfolding set_journal
close env (d, raise x) = (d, raise apply_state_error)
close env (d, ok _) = set_journal env.clear_fault absent d

-- `commit` once the journal is loaded and found prepared.
unfoldable pub commit_journal :
    (Bytes → Bytes) → Bundle → Env → Journal → Disk → Disk × Result Error (Unit {0})
unfolding check_contents stage close
commit_journal sha256 b env j d = elim (check_contents sha256 b.limit d.files j.entries) [
  | raise x ↦ (d, raise x)
  | ok _ ↦ close env (stage env j d)
]

unfoldable pub is_prepared : Phase → Bool
is_prepared prepared = true
is_prepared committed = false
is_prepared other_phase = false

-- `commit`
unfoldable pub commit : (Bytes → Bytes) → Bundle → Env → Disk → Disk × Result Error (Unit {0})
unfolding load commit_journal is_prepared
commit sha256 b env d = elim (load b.allowed b.limit d) [
  | raise x ↦ (d, raise x)
  | ok none ↦ (d, raise apply_state_error)
  | ok (some j) ↦
      if is_prepared j.phase then commit_journal sha256 b env j d else (d, raise apply_state_error)
]

-- The strings that `recover` returns.
pub data Recovery : Type 0 where
  nothing committed_result rolled_back : Recovery

holds : Option Bytes → Bytes → Bool
unfolding bytes_eq
holds none b = false
holds (some c) b = bytes_eq c b

-- The loop of `recover` over a committed journal.
unfoldable pub confirm_new : ℕ → Files → List Entry → Result Error (Unit {0})
unfolding read_regular holds
confirm_new limit f [] = ok tt
confirm_new limit f (e ∷ es) =
    let rest = confirm_new limit f es in
    read_regular limit (f e.path) >>= λ current.
    if holds (content current) e.new then rest else raise apply_state_error

-- The faults of a recovery's writes.
pub record Faults : Type 0 where
  pub write_faults : List Fault
  pub clear_fault : Fault

abbrev pub old_value : Entry → Option Bytes
old_value e = e.old

-- `_clear`, and the result on success.
unfoldable pub clear : Fault → Recovery → Disk → Disk × Result Error Recovery
unfolding set_journal
clear fault r d = let (d', done) = set_journal fault absent d in (d', done >>= λ _. ok r)

-- The end of a roll-back, once the files are written.
unfoldable pub restored :
    Faults → Disk → Files × Result Error (Unit {0}) → Disk × Result Error Recovery
unfolding clear
restored faults d (f, raise x) = (record d { files = f }, raise x)
restored faults d (f, ok _) = clear faults.clear_fault rolled_back (record d { files = f })

-- The end of the recovery of a committed journal, once its contents are compared.
unfoldable pub confirmed : Faults → Disk → Result Error (Unit {0}) → Disk × Result Error Recovery
unfolding clear
confirmed faults d (raise x) = (d, raise x)
confirmed faults d (ok _) = clear faults.clear_fault committed_result d

-- `recover` once the journal is loaded.
unfoldable pub recover_journal :
    (Bytes → Bytes) → Bundle → Faults → Journal → Disk → Disk × Result Error Recovery
unfolding check_contents confirm_new write_all restored confirmed is_prepared
recover_journal sha256 b faults j d = elim (check_contents sha256 b.limit d.files j.entries) [
  | raise x ↦ (d, raise x)
  | ok _ ↦
      if is_prepared j.phase
      then restored faults d (write_all old_value faults.write_faults j.entries d.files)
      else confirmed faults d (confirm_new b.limit d.files j.entries)
]

-- `recover`
unfoldable pub recover : (Bytes → Bytes) → Bundle → Faults → Disk → Disk × Result Error Recovery
unfolding load recover_journal
recover sha256 b faults d = elim (load b.allowed b.limit d) [
  | raise x ↦ (d, raise x)
  | ok none ↦ (d, ok nothing)
  | ok (some j) ↦ recover_journal sha256 b faults j d
]

-- A file with the entry's new content is confirmed.
pub confirm_new-lem :
    (limit : ℕ) (f : Files) (e : Entry) (es : List Entry) (m : Meta)
    → f e.path ≡ regular e.new m
    → length e.new ≤ limit
    → confirm_new limit f (e ∷ es) ≡ confirm_new limit f es
unfolding confirm_new
confirm_new-lem limit f e es m h k = ground (arith, (bytes_eq_iff e.new e.new).1 refl)
