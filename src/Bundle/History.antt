-- ===== src/Bundle/History.antt =====
-- Any number of commits and recoveries, each with its own faults, and then a recovery without.
use bypass_keenetic.Prelude.{true, none, List, [], ◌∷◌, String, ok, ◌≡◌, refl, ◌⊎◌, inl, inr, arith}
use bypass_keenetic.Bundle.Disk.{
  Bytes, Files, Entry, prepared, committed, absent, stored, Disk, fine, write_all, set_journal,
}
use bypass_keenetic.Bundle.Apply.{
  Bundle, Env, Faults, Recovery, nothing, committed_result, rolled_back, commit, recover,
  recover_journal, restored, confirmed, clear, old_value, prepare,
}
use bypass_keenetic.Bundle.Writes.{Between, write_all-ok, write_all-fine}
use bypass_keenetic.Bundle.Validity.{
  Transaction, confirm_new-ok, journal_of, transaction-Fits, load-ok, load-absent,
}
use bypass_keenetic.Bundle.Preparation.{updated, distinct, plain_modes, prepare-Transaction}
use bypass_keenetic.Bundle.Atomicity.{
  Consistent, in_progress, accepted, completed, undone, KeepsFiles, checked, old-outside,
  commit-Consistent, recover-Consistent,
}

-- A recovery in which no write fails.
abbrev pub no_faults : Faults
no_faults = record { write_faults = []; clear_fault = fine }

-- What the result of a recovery says of the files.
abbrev pub Settled : Recovery → Files → Files → Files → Type 0
Settled rolled_back f g h = (q : String) → h q ≡ f q
Settled committed_result f g h = (q : String) → h q ≡ g q
Settled nothing f g h = ((q : String) → h q ≡ f q) ⊎ ((q : String) → h q ≡ g q)

-- The recovery of `d` returns, removes the journal, and leaves all files old or all new.
pub record Settles (sha256 : Bytes → Bytes) (b : Bundle) (f g : Files) (d : Disk) : Type 0 where
  pub outcome : Recovery
  pub returns : (recover sha256 b no_faults d).1 ≡ ok outcome
  pub no_journal : (recover sha256 b no_faults d).0.journal ≡ absent
  pub files : Settled outcome f g (recover sha256 b no_faults d).0.files

module _ (sha256 : Bytes → Bytes) (b : Bundle) (es : List Entry) (f g : Files)
    (t : Transaction b es f g) where
  recovered_lem :
      (d : Disk)
      → d.journal ≡ stored (journal_of prepared es)
      → Between f g d.files
      → recover sha256 b no_faults d ≡ (
        record { files = (write_all old_value [] es d.files).0; journal = absent },
        ok rolled_back,
      )
  unfolding recover recover_journal restored clear set_journal
  recovered_lem d j k = ground (
    arith,
    load-ok b es f g t d prepared (inl refl) j,
    checked sha256 b es f g t d k,
    write_all-fine old_value f es d.files,
  )

  confirmed_lem :
      (d : Disk)
      → d.journal ≡ stored (journal_of committed es)
      → ((q : String) → d.files q ≡ g q)
      → recover sha256 b no_faults d ≡ (record d { journal = absent }, ok committed_result)
  unfolding recover recover_journal confirmed clear set_journal
  confirmed_lem d j k = ground (
    arith,
    load-ok b es f g t d committed (inr refl) j,
    checked sha256 b es f g t d (λ q. inr (k q)),
    confirm_new-ok b.limit d.files g es (transaction-Fits b es f g t) t.to_new k,
  )

  absent_lem : (d : Disk) → d.journal ≡ absent → recover sha256 b no_faults d ≡ (d, ok nothing)
  unfolding recover
  absent_lem d j = ground (arith, load-absent b d j)

  recover-Settles : (d : Disk) → Consistent es f g d → Settles sha256 b f g d
  recover-Settles d (in_progress j k) = record {
    outcome = rolled_back;
    returns = rw (recovered_lem d j k);
    no_journal = rw (recovered_lem d j k);
    files = rw (recovered_lem d j k) (λ q.
        write_all-ok old_value f [] es d.files t.from_old (old-outside sha256 b es f g t d k) q
          (write_all-fine old_value f es d.files));
  }
  recover-Settles d (accepted j k) = record {
    outcome = committed_result;
    returns = rw (confirmed_lem d j k);
    no_journal = rw (confirmed_lem d j k);
    files = rw (confirmed_lem d j k) k;
  }
  recover-Settles d (completed j k) = record {
    outcome = nothing;
    returns = rw (absent_lem d j);
    no_journal = rw (absent_lem d j) j;
    files = rw (absent_lem d j) (inr k);
  }
  recover-Settles d (undone j k) = record {
    outcome = nothing;
    returns = rw (absent_lem d j);
    no_journal = rw (absent_lem d j) j;
    files = rw (absent_lem d j) (inl k);
  }

-- A use of the bundle after `prepare`: a commit, or a recovery, with what fails in it.
pub data Attempt : Type 0 where
  commits : Env → Attempt
  recovers : Faults → Attempt

-- The callbacks of the commits do not change a file.
abbrev pub Harmless : List Attempt → Type 0
Harmless [] = Unit
Harmless (commits env ∷ as') = KeepsFiles env × Harmless as'
Harmless (recovers faults ∷ as') = Harmless as'

-- Each attempt may raise, also where the process stops: the next one starts from the disk it left.
unfoldable pub attempts : (Bytes → Bytes) → Bundle → List Attempt → Disk → Disk
attempts sha256 b [] d = d
attempts sha256 b (commits env ∷ as') d = attempts sha256 b as' (commit sha256 b env d).0
attempts sha256 b (recovers faults ∷ as') d = attempts sha256 b as' (recover sha256 b faults d).0

attempts-Consistent :
    (sha256 : Bytes → Bytes) (b : Bundle) (es : List Entry) (f g : Files)
    → Transaction b es f g
    → (as' : List Attempt) (d : Disk) → Harmless as'
    → Consistent es f g d
    → Consistent es f g (attempts sha256 b as' d)
unfolding attempts
attempts-Consistent sha256 b es f g t [] d h c = c
attempts-Consistent sha256 b es f g t (commits env ∷ as') d h c =
    attempts-Consistent sha256 b es f g t as' (commit sha256 b env d).0 h.1
      (commit-Consistent sha256 b es f g t env d h.0 c)
attempts-Consistent sha256 b es f g t (recovers faults ∷ as') d h c =
    attempts-Consistent sha256 b es f g t as' (recover sha256 b faults d).0 h
      (recover-Consistent sha256 b es f g t faults d c)

-- After a successful `prepare` and any sequence of commits and recoveries, each with write faults
-- or a crash at any place, a recovery without faults returns, removes the journal and leaves the
-- files either all as before `prepare` or all as the update asks, as its result says. Conditions:
-- no path stands twice in the update, no target has a set-id or sticky bit, and the callbacks
-- change no file.
pub all_or_nothing :
    (sha256 : Bytes → Bytes) (b : Bundle) (updates : List (String × Bytes)) (d : Disk)
    (as' : List Attempt)
    → (prepare b fine updates d).1 ≡ ok tt
    → distinct updates ≡ true
    → plain_modes b d.files updates ≡ true
    → Harmless as'
    → Settles sha256 b d.files
        (updated b d.files updates)
        (attempts sha256 b as' (prepare b fine updates d).0)
all_or_nothing sha256 b updates d as' p dis m h =
    let (es, t, e) = prepare-Transaction b updates d p dis m in
    recover-Settles sha256 b es d.files (updated b d.files updates) t _ (
      attempts-Consistent sha256 b es d.files (updated b d.files updates) t as' _ h
        (rw e (in_progress refl (λ q. inl refl))))

-- The faultless environment without a callback.
abbrev pub calm : Env
calm = record { write_faults = []; after_write = none; journal_fault = fine; clear_fault = fine }
