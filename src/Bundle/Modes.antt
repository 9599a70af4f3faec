-- ===== src/Bundle/Modes.antt =====
-- `prepare` journals a target with a set-id or sticky bit, and `_load` refuses that journal.
use bypass_keenetic.Prelude.{
  ℕ, ◌+◌, Bool, false, ◌&&◌, List, [], ◌∷◌, String, ok, raise, ◌≡◌, arith, leb, any, not, ◌==◌,
  length, Result-cases, Bool-cases, ◌⊎◌, inl, inr,
}
use bypass_keenetic.Bundle.Disk.{Bytes, Files, Entry, Disk, apply_state_error, fine}
use bypass_keenetic.Bundle.Journal.{size, valid_entries, valid_journal, load}
use bypass_keenetic.Bundle.Apply.{Bundle, Env, Faults, entries_of, prepare, commit, recover}
use bypass_keenetic.Bundle.Preparation.{plain_modes, round}

one_false : (x y m z r : Bool) → (m ≡ false) ⊎ (r ≡ false) → (x && y && m && z && r) ≡ false
one_false x y m z r h = ground arith

entries-invalid :
    (b : Bundle) (f : Files) (seen : List String) (total k : ℕ) (us : List (String × Bytes))
    (es : List Entry)
    → entries_of b f total us ≡ ok es
    → plain_modes b f us ≡ false
    → valid_entries b.allowed b.limit seen k es ≡ false
unfolding valid_entries plain_modes
entries-invalid b f seen total k [] es h m = cc
entries-invalid b f seen total k ((p, c) ∷ us) es h m =
    let r = round b f total p c us es h in
    let k' = k + (size r.entry.old + length r.entry.new) in
    let bad : (leb r.entry.info.mode 511 ≡ false)
        ⊎ (valid_entries b.allowed b.limit (r.entry.path ∷ seen) k' r.others ≡ false) =
      elim (Bool-cases (plain_modes b f us)) [
        | inl y ↦ inl (rw r.described.keeps_meta (ground arith))
        | inr n ↦ inr (
            entries-invalid b f (r.entry.path ∷ seen) (total + (length c + size r.entry.old)) k' us
              r.others r.rest n)
      ] in
    rw r.split (
      one_false (any (λ a. a == r.entry.path) b.allowed) (not (any (λ s. s == r.entry.path) seen)) _
        (leb k' b.limit) _ bad)

-- If a target has a set-user-id, set-group-id or sticky bit, a successful `prepare` leaves a disk
-- on which every commit and every recovery raises `ApplyStateError` and changes nothing.
pub special_modes_stick :
    (sha256 : Bytes → Bytes) (b : Bundle) (us : List (String × Bytes)) (d : Disk) (env : Env)
    (faults : Faults)
    → (prepare b fine us d).1 ≡ ok tt
    → plain_modes b d.files us ≡ false
    → (commit sha256 b env (prepare b fine us d).0
        ≡ ((prepare b fine us d).0, raise apply_state_error))
      × (recover sha256 b faults (prepare b fine us d).0
          ≡ ((prepare b fine us d).0, raise apply_state_error))
unfolding prepare commit recover load valid_journal
special_modes_stick sha256 b us d env faults h m = elim (Result-cases (entries_of b d.files 0 us)) [
  | inr (x, e) ↦ absurd (ground arith)
  | inl ([], e) ↦ absurd (ground arith)
  | inl (x ∷ es, e) ↦ (
    ground (arith, entries-invalid b d.files [] 0 0 us (x ∷ es) e m),
    ground (arith, entries-invalid b d.files [] 0 0 us (x ∷ es) e m),
  )
]
