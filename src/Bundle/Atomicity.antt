-- ===== src/Bundle/Atomicity.antt =====
-- A transaction takes effect on all of its files or on none, whatever fails and whenever.
use bypass_keenetic.Prelude.{
  Bool, true, false, List, String, Result, ok, raise, ◌≡◌, refl, inl, inr, arith, ◌∙◌,
}
use bypass_keenetic.Bundle.Disk.{
  Bytes, Files, Entry, prepared, committed, Journal, JournalFile, absent, stored, Disk, Error,
  Fault, fine, before, behind, write_all, set_journal,
}
use bypass_keenetic.Bundle.Journal.{check_contents}
use bypass_keenetic.Bundle.Apply.{
  Bundle, Env, Faults, Recovery, committed_result, rolled_back, commit, commit_journal, stage, seal,
  staged, close, restored, confirmed, acknowledge, recover, recover_journal, clear, old_value,
  new_value,
}
use bypass_keenetic.Bundle.Writes.{names, Between, write_all-Between, write_all-ok}
use bypass_keenetic.Bundle.Validity.{
  Transaction, check_contents-ok, confirm_new-ok, journal_of, transaction-Fits, load-ok,
  load-absent,
}

-- The disks that a transaction from `f` to `g` can leave: in progress, committed with the journal
-- still there, completed, or undone.
pub data Consistent (es : List Entry) (f g : Files) (d : Disk) : Type 0 where
  in_progress :
      d.journal ≡ stored (journal_of prepared es) → Between f g d.files → Consistent es f g d
  accepted :
      d.journal ≡ stored (journal_of committed es)
      → ((q : String) → d.files q ≡ g q)
      → Consistent es f g d
  completed : d.journal ≡ absent → ((q : String) → d.files q ≡ g q) → Consistent es f g d
  undone : d.journal ≡ absent → ((q : String) → d.files q ≡ f q) → Consistent es f g d

-- The callback, if there is one, does not change a file.
abbrev pub KeepsFiles : Env → Type 0
KeepsFiles env = (h : Files) (q : String) → (acknowledge env.after_write h).0 q ≡ h q

module _ (sha256 : Bytes → Bytes) (b : Bundle) (es : List Entry) (f g : Files)
    (t : Transaction b es f g) where
  -- A new journal, whatever the fault.
  set_journal-Consistent :
      (x : Fault) (j : JournalFile) (d : Disk)
      → Consistent es f g d
      → Consistent es f g (record d { journal = j })
      → Consistent es f g (set_journal x j d).0
  unfolding set_journal
  set_journal-Consistent fine j d old new = new
  set_journal-Consistent before j d old new = old
  set_journal-Consistent behind j d old new = new

  new-outside :
      (d : Disk) → Between f g d.files → (q : String) → names q es ≡ false → d.files q ≡ g q
  new-outside d k q n = ground (arith, k q, t.outside q n)

  pub old-outside :
      (d : Disk) → Between f g d.files → (q : String) → names q es ≡ false → d.files q ≡ f q
  old-outside d k q n = ground (arith, k q, t.outside q n)

  seal-Consistent :
      (env : Env) (d : Disk) (answer : Bool)
      → d.journal ≡ stored (journal_of prepared es)
      → ((q : String) → d.files q ≡ g q)
      → Consistent es f g (seal env (journal_of prepared es) d answer).0
  unfolding seal
  seal-Consistent env d true j k =
      set_journal-Consistent env.journal_fault _ d (in_progress j (λ q. inr (k q)))
        (accepted refl k)
  seal-Consistent env d false j k = in_progress j (λ q. inr (k q))

  staged-Consistent :
      (env : Env) (d : Disk) (w : Files × Result Error (Unit {0}))
      → KeepsFiles env
      → d.journal ≡ stored (journal_of prepared es)
      → Between f g w.0
      → ((q : String) → w.1 ≡ ok tt → w.0 q ≡ g q)
      → Consistent es f g (staged env (journal_of prepared es) d w).0
  unfolding staged
  staged-Consistent env d (h, raise x) keeps j k done = in_progress j k
  staged-Consistent env d (h, ok u) keeps j k done =
      seal-Consistent env (record d { files = (acknowledge env.after_write h).0 })
        (acknowledge env.after_write h).1 j (λ q. keeps h q ∙ done q refl)

  stage-Consistent :
      (env : Env) (d : Disk)
      → KeepsFiles env
      → d.journal ≡ stored (journal_of prepared es)
      → Between f g d.files
      → Consistent es f g (stage env (journal_of prepared es) d).0
  unfolding stage
  stage-Consistent env d keeps j k =
      staged-Consistent env d (write_all new_value env.write_faults es d.files) keeps j
        (write_all-Between new_value g f env.write_faults es d.files t.to_new k)
        (write_all-ok new_value g env.write_faults es d.files t.to_new (new-outside d k))

  close-Consistent :
      (env : Env) (p : Disk × Result Error (Unit {0}))
      → Consistent es f g p.0
      → (p.1 ≡ ok tt → (q : String) → p.0.files q ≡ g q)
      → Consistent es f g (close env p).0
  unfolding close
  close-Consistent env (d, raise x) c k = c
  close-Consistent env (d, ok u) c k =
      set_journal-Consistent env.clear_fault absent d c (completed refl (k refl))

  files-set_journal :
      (x : Fault) (j : JournalFile) (d : Disk) → (set_journal x j d).0.files ≡ d.files
  unfolding set_journal
  files-set_journal fine j d = refl
  files-set_journal before j d = refl
  files-set_journal behind j d = refl

  seal-files :
      (env : Env) (j : Journal) (d : Disk) (answer : Bool) → (seal env j d answer).0.files ≡ d.files
  unfolding seal
  seal-files env j d true = files-set_journal env.journal_fault _ d
  seal-files env j d false = refl

  staged-ok :
      (env : Env) (d : Disk) (w : Files × Result Error (Unit {0}))
      → KeepsFiles env
      → ((q : String) → w.1 ≡ ok tt → w.0 q ≡ g q)
      → (staged env (journal_of prepared es) d w).1 ≡ ok tt
      → (q : String) → (staged env (journal_of prepared es) d w).0.files q ≡ g q
  unfolding staged
  staged-ok env d (h, raise x) keeps k r q = cc
  staged-ok env d (h, ok u) keeps k r q =
      rw
        (seal-files env (journal_of prepared es)
          (record d { files = (acknowledge env.after_write h).0 })
          (acknowledge env.after_write h).1)
        (keeps h q ∙ k q refl)

  commit_journal-Consistent :
      (env : Env) (d : Disk)
      → KeepsFiles env
      → d.journal ≡ stored (journal_of prepared es)
      → Between f g d.files
      → Consistent es f g (commit_journal sha256 b env (journal_of prepared es) d).0
  unfolding commit_journal stage
  commit_journal-Consistent env d keeps j k =
      rw
        (
          check_contents-ok sha256 b.limit d.files f g es (transaction-Fits b es f g t) t.from_old
              t.to_new k,
          commit_journal,
        )
        (close-Consistent env (stage env (journal_of prepared es) d)
          (stage-Consistent env d keeps j k)
          (staged-ok env d (write_all new_value env.write_faults es d.files) keeps
            (write_all-ok new_value g env.write_faults es d.files t.to_new (new-outside d k))))

  -- However a commit ends, the disk is consistent afterwards if it was before.
  pub commit-Consistent :
      (env : Env) (d : Disk)
      → KeepsFiles env
      → Consistent es f g d
      → Consistent es f g (commit sha256 b env d).0
  unfolding commit
  commit-Consistent env d keeps (in_progress j k) =
      rw (load-ok b es f g t d prepared (inl refl) j, commit)
        (commit_journal-Consistent env d keeps j k)
  commit-Consistent env d keeps (accepted j k) =
      rw (load-ok b es f g t d committed (inr refl) j, commit) (accepted j k)
  commit-Consistent env d keeps (completed j k) = rw (load-absent b d j, commit) (completed j k)
  commit-Consistent env d keeps (undone j k) = rw (load-absent b d j, commit) (undone j k)

  clear-Consistent :
      (x : Fault) (r : Recovery) (d : Disk)
      → Consistent es f g d
      → Consistent es f g (record d { journal = absent })
      → Consistent es f g (clear x r d).0
  unfolding clear
  clear-Consistent x r d old new = set_journal-Consistent x absent d old new

  restored-Consistent :
      (faults : Faults) (d : Disk) (w : Files × Result Error (Unit {0}))
      → d.journal ≡ stored (journal_of prepared es)
      → Between f g w.0
      → ((q : String) → w.1 ≡ ok tt → w.0 q ≡ f q)
      → Consistent es f g (restored faults d w).0
  unfolding restored
  restored-Consistent faults d (h, raise x) j k done = in_progress j k
  restored-Consistent faults d (h, ok u) j k done =
      clear-Consistent faults.clear_fault rolled_back (record d { files = h }) (in_progress j k)
        (undone refl (λ q. done q refl))

  pub checked : (d : Disk) → Between f g d.files → check_contents sha256 b.limit d.files es ≡ ok tt
  checked d k =
      check_contents-ok sha256 b.limit d.files f g es (transaction-Fits b es f g t) t.from_old
        t.to_new k

  old-Between :
      (faults : Faults) (d : Disk)
      → Between f g d.files
      → Between f g (write_all old_value faults.write_faults es d.files).0
  old-Between faults d k q = ground (
    arith,
    write_all-Between old_value f g faults.write_faults es d.files t.from_old
        (λ p. ground (arith, k p)) q,
  )

  -- However a recovery ends, the disk is consistent afterwards if it was before.
  pub recover-Consistent :
      (faults : Faults) (d : Disk)
      → Consistent es f g d
      → Consistent es f g (recover sha256 b faults d).0
  unfolding recover recover_journal
  recover-Consistent faults d (in_progress j k) =
      rw (load-ok b es f g t d prepared (inl refl) j, recover)
        (rw (checked d k, recover_journal)
          (restored-Consistent faults d (write_all old_value faults.write_faults es d.files) j
            (old-Between faults d k)
            (write_all-ok old_value f faults.write_faults es d.files t.from_old (old-outside d k))))
  recover-Consistent faults d (accepted j k) =
      rw (load-ok b es f g t d committed (inr refl) j, recover)
        (rw (checked d (λ q. inr (k q)), recover_journal)
          (rw
            (
              confirm_new-ok b.limit d.files g es (transaction-Fits b es f g t) t.to_new k,
              confirmed,
            )
            (clear-Consistent faults.clear_fault committed_result d (accepted j k)
              (completed refl k))))
  recover-Consistent faults d (completed j k) = rw (load-absent b d j, recover) (completed j k)
  recover-Consistent faults d (undone j k) = rw (load-absent b d j, recover) (undone j k)
