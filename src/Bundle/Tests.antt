-- ===== src/Bundle/Tests.antt =====
-- Runs of the bundle at small inputs, and the theorems at them.
use bypass_keenetic.Prelude.{
  true, some, List, [], ◌∷◌, String, ◌==◌, if◌then◌else◌, ok, raise, ◌≡◌, refl, inl,
}
use bypass_keenetic.Bundle.Disk.{
  Bytes, Meta, missing, regular, Files, prepared, Journal, absent, stored, Disk, apply_state_error,
  fine, before, behind, bytes_eq,
}
use bypass_keenetic.Bundle.Apply.{Bundle, Env, rolled_back, prepare, commit, recover, acknowledge}
use bypass_keenetic.Bundle.Journal.{valid_journal}
use bypass_keenetic.Bundle.Preparation.{updated, distinct, plain_modes}
use bypass_keenetic.Bundle.History.{
  commits, recovers, attempts, Settles, calm, no_faults, all_or_nothing,
}
use bypass_keenetic.Bundle.Refusal.{foreign_contents_refused}
use bypass_keenetic.Bundle.Modes.{special_modes_stick}

abbrev owner : Meta
owner = record { mode = 420; uid = 0; gid = 0 }

abbrev setuid : Meta
setuid = record { mode = 2541; uid = 0; gid = 0 }

abbrev files_at : Meta → Files
files_at m q = if q == "/opt/config" then regular (1 ∷ 2 ∷ []) m else missing

abbrev disk_at : Meta → Disk
disk_at m = record { files = files_at m; journal = absent }

abbrev bundle : Bundle
bundle = record { allowed = "/opt/config" ∷ "/opt/key" ∷ []; limit = 100; uid = 0; gid = 0 }

abbrev updates : List (String × Bytes)
updates = ("/opt/config", 3 ∷ []) ∷ ("/opt/key", 4 ∷ []) ∷ []

-- The content itself in place of its digest.
abbrev whole : Bytes → Bytes
whole x = x

-- The second write fails, after it has reached the disk.
abbrev broken : Env
broken = record calm { write_faults = fine ∷ behind ∷ [] }

prepare_runs : (prepare bundle fine updates (disk_at owner)).1 ≡ ok tt
unfolding prepare
prepare_runs = refl

broken_recovers :
    (recover whole bundle no_faults
      (commit whole bundle broken (prepare bundle fine updates (disk_at owner)).0).0).1
    ≡ ok rolled_back
unfolding prepare commit recover valid_journal bytes_eq
broken_recovers = refl

updates-distinct : distinct updates ≡ true
unfolding distinct
updates-distinct = refl

all_or_nothing_example :
    Settles whole bundle (files_at owner) (updated bundle (files_at owner) updates) (
      attempts whole bundle
        (commits broken ∷ recovers (record { write_faults = before ∷ []; clear_fault = fine }) ∷ [])
        (prepare bundle fine updates (disk_at owner)).0)
unfolding plain_modes acknowledge
all_or_nothing_example =
    all_or_nothing whole bundle updates (disk_at owner)
      (commits broken ∷ recovers (record { write_faults = before ∷ []; clear_fault = fine }) ∷ [])
      prepare_runs updates-distinct refl ((λ h q. refl), tt)

abbrev journal : Journal
journal = record {
  schema = 1;
  phase = prepared;
  entries = record { path = "/opt/config"; old = some (7 ∷ []); new = 8 ∷ []; info = owner } ∷ [];
}

abbrev changed : Disk
changed = record (disk_at owner) { journal = stored journal }

foreign_contents_refused_example :
    (commit whole bundle calm changed ≡ (changed, raise apply_state_error))
    × (recover whole bundle no_faults changed ≡ (changed, raise apply_state_error))
foreign_contents_refused_example =
    foreign_contents_refused whole bundle changed journal calm no_faults refl
      ((λ c x m at o e. e), tt) (inl (1 ∷ 2 ∷ [], owner, refl, (λ e. cc), (λ e. cc)))

special_prepare_runs : (prepare bundle fine updates (disk_at setuid)).1 ≡ ok tt
unfolding prepare
special_prepare_runs = refl

special_modes_stick_example :
    (commit whole bundle calm (prepare bundle fine updates (disk_at setuid)).0
      ≡ ((prepare bundle fine updates (disk_at setuid)).0, raise apply_state_error))
    × (recover whole bundle no_faults (prepare bundle fine updates (disk_at setuid)).0
        ≡ ((prepare bundle fine updates (disk_at setuid)).0, raise apply_state_error))
unfolding plain_modes
special_modes_stick_example =
    special_modes_stick whole bundle updates (disk_at setuid) calm no_faults special_prepare_runs
      refl
