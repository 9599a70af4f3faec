-- ===== src/Bundle/Refusal.antt =====
-- What the bundle refuses, with nothing changed.
use bypass_keenetic.Prelude.{
  ℕ, Bool, true, false, ◌||◌, Option, none, some, List, [], ◌∷◌, String, ◌==◌, raise, ◌+◌, not, ◌≡◌,
  ◌≢◌, refl, ◌⊎◌, inl, inr, arith, any, All, length, Result-cases,
}
use bypass_keenetic.Bundle.Disk.{
  Bytes, Meta, Files, Node, regular, Entry, Journal, stored, Disk, Error, apply_state_error, Fault,
  read_regular, bytes_eq_iff,
}
use bypass_keenetic.Bundle.Journal.{load, check_contents, familiar, size}
use bypass_keenetic.Bundle.Apply.{
  Bundle, Env, Faults, commit, commit_journal, recover, recover_journal, prepare, pending,
  entries_of, entry_of,
}

-- The entry's file holds neither its old nor its new content.
abbrev pub Foreign : Files → Entry → Type 0
Foreign f e = (c : Bytes) × (m : Meta) × (f e.path ≡ regular c m) × (e.old ≢ some c) × (e.new ≢ c)

-- One of the entries is foreign.
abbrev pub AnyForeign : Files → List Entry → Type 0
AnyForeign f [] = ⊥
AnyForeign f (e ∷ es) = Foreign f e ⊎ AnyForeign f es

-- The digest tells the file's content from the entry's old and new contents.
abbrev pub TellsApart : (Bytes → Bytes) → Files → Entry → Type 0
TellsApart sha256 f e =
    (c x : Bytes) (m : Meta)
    → f e.path ≡ regular c m
    → (e.old ≡ some x) ⊎ (e.new ≡ x)
    → sha256 c ≡ sha256 x
    → c ≡ x

module _ (sha256 : Bytes → Bytes) (limit : ℕ) (f : Files) where
  foreign_entry :
      (old : Option Bytes) (e : Entry) (c : Bytes) (m : Meta)
      → e.old ≡ old
      → TellsApart sha256 f e
      → f e.path ≡ regular c m
      → e.old ≢ some c
      → e.new ≢ c
      → familiar sha256 (some c) e ≡ false
  unfolding familiar
  foreign_entry none e c m o apart at n k =
      ground (arith, bytes_eq_iff (sha256 c) (sha256 e.new), apart c e.new m at (inr refl))
  foreign_entry (some x) e c m o apart at n k = ground (
    arith,
    bytes_eq_iff (sha256 c) (sha256 e.new),
    bytes_eq_iff (sha256 c) (sha256 x),
    apart c e.new m at (inr refl),
    apart c x m at (inl o),
  )

  check_contents-raises :
      (es : List Entry)
      → All (TellsApart sha256 f) es
      → AnyForeign f es
      → check_contents sha256 limit f es ≡ raise apply_state_error
  unfolding check_contents
  check_contents-raises [] apart h = elim h [ ]
  check_contents-raises (e ∷ es) apart (inl (c, m, at, n, k)) =
      ground (arith, foreign_entry e.old e c m refl apart.0 at n k)
  check_contents-raises (e ∷ es) apart (inr h) = ground (arith, check_contents-raises es apart.1 h)

-- If a file of the journal holds neither its old nor its new content, a commit and a recovery both
-- raise `ApplyStateError` and change nothing, whatever the callback and the faults. Condition: the
-- digest tells the present contents from the entries' old and new ones.
pub foreign_contents_refused :
    (sha256 : Bytes → Bytes) (b : Bundle) (d : Disk) (j : Journal) (env : Env) (faults : Faults)
    → d.journal ≡ stored j
    → All (TellsApart sha256 d.files) j.entries
    → AnyForeign d.files j.entries
    → (commit sha256 b env d ≡ (d, raise apply_state_error))
      × (recover sha256 b faults d ≡ (d, raise apply_state_error))
unfolding commit commit_journal recover recover_journal load
foreign_contents_refused sha256 b d j env faults h apart k = (
  ground (arith, check_contents-raises sha256 b.limit d.files j.entries apart k),
  ground (arith, check_contents-raises sha256 b.limit d.files j.entries apart k),
)

-- An update with a path that is not permitted.
unfoldable pub unlisted : Bundle → List (String × Bytes) → Bool
unlisted b [] = false
unlisted b ((p, c) ∷ us) = not (any (λ a. a == p) b.allowed) || unlisted b us

read_regular-error :
    (limit : ℕ) (n : Node) (x : Error) → read_regular limit n ≡ raise x → x ≡ apply_state_error
unfolding read_regular
read_regular-error limit n x h = ground arith

entries-unlisted :
    (b : Bundle) (f : Files) (total : ℕ) (us : List (String × Bytes))
    → unlisted b us ≡ true
    → entries_of b f total us ≡ raise apply_state_error
unfolding entries_of unlisted
entries-unlisted b f total [] h = cc
entries-unlisted b f total ((p, c) ∷ us) h = elim (Result-cases (read_regular b.limit (f p))) [
  | inl (r, e) ↦
      ground (arith, entries-unlisted b f (total + (length c + size (entry_of b p c r).old)) us)
  | inr (x, e) ↦ ground (arith, read_regular-error b.limit (f p) x e)
]

-- `prepare` raises `ApplyStateError` and changes nothing if an earlier journal is there or a path
-- of the update is not permitted.
pub prepare_refuses :
    (b : Bundle) (fault : Fault) (us : List (String × Bytes)) (d : Disk)
    → (pending d || unlisted b us) ≡ true
    → prepare b fault us d ≡ (d, raise apply_state_error)
unfolding prepare
prepare_refuses b fault us d h = ground (arith, entries-unlisted b d.files 0 us)
