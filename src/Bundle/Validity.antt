-- ===== src/Bundle/Validity.antt =====
-- The checks of `commit` and `recover` pass on a disk that only this transaction has changed.
use bypass_keenetic.Prelude.{
  ℕ, ◌+◌, ◌≤◌, true, false, Option, none, some, List, [], ◌∷◌, String, length, ok, ◌≡◌, ◌≢◌, refl,
  ◌⊎◌, inl, inr, arith, All, ◌∙◌, sym,
}
use bypass_keenetic.Bundle.Disk.{
  Bytes, Files, regular, Entry, Phase, prepared, committed, Journal, stored, absent, node_of,
  bytes_eq_iff, Disk,
}
use bypass_keenetic.Bundle.Journal.{size, valid_entries, valid_journal, load, check_contents}
use bypass_keenetic.Bundle.Apply.{Bundle, confirm_new, confirm_new-lem, old_value, new_value}
use bypass_keenetic.Bundle.Writes.{names, Aims, Between}

-- A journal's entries, the files `f` before them and the files `g` that they aim at.
pub record Transaction (b : Bundle) (es : List Entry) (f g : Files) : Type 0 where
  pub some_entry : es ≢ []
  pub valid : valid_entries b.allowed b.limit [] 0 es ≡ true
  pub from_old : Aims old_value f es
  pub to_new : Aims new_value g es
  pub outside : (q : String) → names q es ≡ false → g q ≡ f q

abbrev pub Fits : ℕ → Entry → Type 0
Fits limit e = (size e.old ≤ limit) × (length e.new ≤ limit)

valid-Fits :
    (allowed seen : List String) (limit total : ℕ) (es : List Entry)
    → valid_entries allowed limit seen total es ≡ true
    → All (Fits limit) es
unfolding valid_entries
valid-Fits allowed seen limit total [] h = tt
valid-Fits allowed seen limit total (e ∷ es) h = (
  ground arith,
  valid-Fits allowed (e.path ∷ seen) limit (total + (size e.old + length e.new)) es (ground arith),
)

module _ (sha256 : Bytes → Bytes) (limit : ℕ) (f : Files) where
  check_old :
      (old : Option Bytes) (e : Entry) (es : List Entry)
      → e.old ≡ old
      → Fits limit e
      → f e.path ≡ node_of old e.info
      → check_contents sha256 limit f (e ∷ es) ≡ check_contents sha256 limit f es
  unfolding check_contents
  check_old none e es o fits h = ground arith
  check_old (some c) e es o fits h = ground (arith, (bytes_eq_iff (sha256 c) (sha256 c)).1 refl)

  check_new :
      (e : Entry) (es : List Entry)
      → Fits limit e
      → f e.path ≡ regular e.new e.info
      → check_contents sha256 limit f (e ∷ es) ≡ check_contents sha256 limit f es
  unfolding check_contents
  check_new e es fits h = ground (arith, (bytes_eq_iff (sha256 e.new) (sha256 e.new)).1 refl)

  -- The contents of files between the old and the new ones are familiar.
  pub check_contents-ok :
      (f0 g : Files) (es : List Entry)
      → All (Fits limit) es
      → Aims old_value f0 es
      → Aims new_value g es
      → Between f0 g f
      → check_contents sha256 limit f es ≡ ok tt
  check_contents-ok f0 g [] fits old new k = unfold check_contents in refl
  check_contents-ok f0 g (e ∷ es) fits old new k = elim (k e.path) [
    | inl p ↦
        check_old e.old e es refl fits.0 (p ∙ sym old.0)
        ∙ check_contents-ok f0 g es fits.1 old.1 new.1 k
    | inr p ↦ check_new e es fits.0 (p ∙ sym new.0) ∙ check_contents-ok f0 g es fits.1 old.1 new.1 k
  ]

-- The new contents are confirmed.
pub confirm_new-ok :
    (limit : ℕ) (f g : Files) (es : List Entry)
    → All (Fits limit) es
    → Aims new_value g es
    → ((q : String) → f q ≡ g q)
    → confirm_new limit f es ≡ ok tt
confirm_new-ok limit f g [] fits new k = unfold confirm_new in refl
confirm_new-ok limit f g (e ∷ es) fits new k =
    confirm_new-lem limit f e es e.info (k e.path ∙ sym new.0) fits.0.1
    ∙ confirm_new-ok limit f g es fits.1 new.1 k

abbrev pub journal_of : Phase → List Entry → Journal
journal_of phase es = record { schema = 1; phase = phase; entries = es }

module _ (b : Bundle) (es : List Entry) (f g : Files) (t : Transaction b es f g) where
  pub transaction-Fits : All (Fits b.limit) es
  transaction-Fits = valid-Fits b.allowed [] b.limit 0 es t.valid

  load_lem :
      (d : Disk) (es' : List Entry) (phase : Phase)
      → es ≡ es'
      → (phase ≡ prepared) ⊎ (phase ≡ committed)
      → d.journal ≡ stored (journal_of phase es)
      → load b.allowed b.limit d ≡ ok (some (journal_of phase es))
  unfolding load valid_journal
  load_lem d [] phase e p h = absurd (t.some_entry e)
  load_lem d (x ∷ es') phase e p h = ground (arith, t.valid)

  -- The journal of the transaction is read as it was written.
  pub load-ok :
      (d : Disk) (phase : Phase)
      → (phase ≡ prepared) ⊎ (phase ≡ committed)
      → d.journal ≡ stored (journal_of phase es)
      → load b.allowed b.limit d ≡ ok (some (journal_of phase es))
  load-ok d phase = load_lem d es phase refl

-- No journal.
pub load-absent : (b : Bundle) (d : Disk) → d.journal ≡ absent → load b.allowed b.limit d ≡ ok none
unfolding load
load-absent b d h = ground arith
