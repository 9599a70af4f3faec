-- ===== src/Bundle/Preparation.antt =====
-- What `prepare` writes: a journal whose entries hold the files as they are, and aim at the update.
use native.Mathlib.Nat.{add_comm}
use bypass_keenetic.Prelude.{
  ℕ, ◌+◌, Bool, true, false, not, ◌&&◌, ◌||◌, Option, List, [], ◌∷◌, String, ◌==◌, if◌then◌else◌,
  length, any, all, ok, ◌≡◌, refl, arith, All, eq_iff, eq_refl, leb, Result-cases, inl, inr, sym,
  ◌∙◌, ap, ◌≢◌,
}
use bypass_keenetic.Bundle.Disk.{
  Bytes, Meta, Node, missing, irregular, regular, Files, Entry, Disk, read_regular, node_of, fine,
  stored, prepared,
}
use bypass_keenetic.Bundle.Journal.{size, valid_entries}
use bypass_keenetic.Bundle.Apply.{Bundle, entry_of, entries_of, prepare, old_value, new_value}
use bypass_keenetic.Bundle.Writes.{names, Aims}
use bypass_keenetic.Bundle.Validity.{Transaction, journal_of}

-- The metadata that a target has after the transaction.
unfoldable pub meta_of : Bundle → Node → Meta
meta_of b missing = record { mode = 384; uid = b.uid; gid = b.gid }
meta_of b irregular = record { mode = 384; uid = b.uid; gid = b.gid }
meta_of b (regular c m) = m

-- The files after the update, and whether a path is one of the update's.
unfoldable pub updated : Bundle → Files → List (String × Bytes) → Files
unfolding meta_of
updated b f [] q = f q
updated b f ((p, c) ∷ us) q =
    let rest = updated b f us q in if p == q then regular c (meta_of b (f p)) else rest

unfoldable pub targets : String → List (String × Bytes) → Bool
targets q us = any (λ u. u.0 == q) us

-- No path twice, as in the keys of a dictionary of absolute paths.
unfoldable pub distinct : List (String × Bytes) → Bool
unfolding targets
distinct [] = true
distinct ((p, c) ∷ us) = not (targets p us) && distinct us

-- No target has a set-user-id, set-group-id or sticky bit.
unfoldable pub plain_modes : Bundle → Files → List (String × Bytes) → Bool
unfolding meta_of
plain_modes b f us = all (λ u. leb (meta_of b (f u.0)).mode 511) us

unseen : List String → List (String × Bytes) → Bool
unfolding targets
unseen seen us = all (λ s. not (targets s us)) seen

-- An entry's parts, from the node that it was made of.
pub record Describes (b : Bundle) (n : Node) (p : String) (c : Bytes) (e : Entry) : Type 0 where
  pub at_path : e.path ≡ p
  pub desired : e.new ≡ c
  pub keeps_meta : e.info ≡ meta_of b n
  pub holds_old : node_of e.old e.info ≡ n

describe :
    (b : Bundle) (n : Node) (p : String) (c : Bytes) (r : Option (Bytes × Meta))
    → read_regular b.limit n ≡ ok r
    → Describes b n p c (entry_of b p c r)
unfolding read_regular entry_of meta_of
describe b missing p c r h = ground arith
describe b irregular p c r h = cc
describe b (regular x m) p c r h = ground arith

-- A successful round of the loop of `prepare`.
pub record Round (b : Bundle) (f : Files) (total : ℕ) (p : String) (c : Bytes)
    (us : List (String × Bytes)) (es : List Entry) : Type 0 where
  pub entry : Entry
  pub others : List Entry
  pub described : Describes b (f p) p c entry
  pub listed : any (λ a. a == p) b.allowed ≡ true
  pub within : leb (total + (length c + size entry.old)) b.limit ≡ true
  pub rest : entries_of b f (total + (length c + size entry.old)) us ≡ ok others
  pub split : es ≡ entry ∷ others

pub round :
    (b : Bundle) (f : Files) (total : ℕ) (p : String) (c : Bytes) (us : List (String × Bytes))
    (es : List Entry)
    → entries_of b f total ((p, c) ∷ us) ≡ ok es
    → Round b f total p c us es
unfolding entries_of
round b f total p c us es h = elim (Result-cases (read_regular b.limit (f p))) [
  | inr (x, e) ↦ absurd (ground arith)
  | inl (r, e) ↦
      elim (Result-cases (entries_of b f (total + (length c + size (entry_of b p c r).old)) us)) [
        | inr (x, e') ↦ absurd (ground arith)
        | inl (os, e') ↦ record {
          entry = entry_of b p c r;
          others = os;
          described = describe b (f p) p c r e;
          listed = ground arith;
          within = ground arith;
          rest = e';
          split = ground arith;
        }
      ]
]

module _ (p : String) (c : Bytes) (us : List (String × Bytes)) where
  unseen-fresh :
      (seen : List String) → unseen seen ((p, c) ∷ us) ≡ true → any (λ s. s == p) seen ≡ false
  unfolding unseen
  unseen-fresh [] h = refl
  unseen-fresh (s ∷ seen) h = ground (arith, eq_iff p s, eq_iff s p, unseen-fresh seen)

  unseen-later : (seen : List String) → unseen seen ((p, c) ∷ us) ≡ true → unseen seen us ≡ true
  unfolding unseen
  unseen-later [] h = refl
  unseen-later (s ∷ seen) h = ground (arith, unseen-later seen)

module _ (b : Bundle) (f : Files) where
  valid-cons :
      (seen : List String) (total : ℕ) (p : String) (c : Bytes) (e : Entry) (es : List Entry)
      → Describes b (f p) p c e
      → any (λ a. a == p) b.allowed ≡ true
      → any (λ s. s == p) seen ≡ false
      → leb (meta_of b (f p)).mode 511 ≡ true
      → leb (total + (length c + size e.old)) b.limit ≡ true
      → valid_entries b.allowed b.limit (p ∷ seen) (total + (length c + size e.old)) es ≡ true
      → valid_entries b.allowed b.limit seen total (e ∷ es) ≡ true
  unfolding valid_entries
  valid-cons seen total p c e es d a s m l r =
      rw (d.at_path, d.desired, d.keeps_meta, a, s, m, add_comm (size e.old) (length c), l, r)

  entries-valid :
      (seen : List String) (total : ℕ) (us : List (String × Bytes)) (es : List Entry)
      → entries_of b f total us ≡ ok es
      → distinct us ≡ true
      → plain_modes b f us ≡ true
      → unseen seen us ≡ true
      → valid_entries b.allowed b.limit seen total es ≡ true
  entries-valid seen total [] es h d m s = unfold entries_of valid_entries in ground arith
  entries-valid seen total ((p, c) ∷ us) es h d m s =
      let r = round b f total p c us es h in
      rw r.split (
        valid-cons seen total p c r.entry r.others r.described r.listed (unseen-fresh p c us seen s)
          (unfold plain_modes in ground arith) r.within
          (entries-valid (p ∷ seen) (total + (length c + size r.entry.old)) us r.others r.rest
            (unfold distinct in ground arith) (unfold plain_modes in ground arith)
            (unfold distinct unseen in ground (arith, unseen-later p c us seen))))

  entries-old :
      (total : ℕ) (us : List (String × Bytes)) (es : List Entry)
      → entries_of b f total us ≡ ok es
      → Aims old_value f es
  entries-old total [] [] h = tt
  entries-old total [] (e ∷ es) h = unfold entries_of in absurd (ground arith)
  entries-old total ((p, c) ∷ us) es h =
      let r = round b f total p c us es h in
      rw r.split (
        r.described.holds_old ∙ ap f (sym r.described.at_path),
        entries-old (total + (length c + size r.entry.old)) us r.others r.rest,
      )

  -- The files of `g` at the targets are as the update asks.
  abbrev Has : Files → List (String × Bytes) → Type 0
  Has g us = All (λ u. regular u.1 (meta_of b (f u.0)) ≡ g u.0) us

  entries-new :
      (g : Files) (total : ℕ) (us : List (String × Bytes)) (es : List Entry)
      → entries_of b f total us ≡ ok es
      → Has g us
      → Aims new_value g es
  entries-new g total [] [] h k = tt
  entries-new g total [] (e ∷ es) h k = unfold entries_of in absurd (ground arith)
  entries-new g total ((p, c) ∷ us) es h k =
      let r = round b f total p c us es h in
      rw r.split (
        rw (r.described.at_path, r.described.desired, r.described.keeps_meta) k.0,
        entries-new g (total + (length c + size r.entry.old)) us r.others r.rest k.1,
      )

  entries-names :
      (q : String) (total : ℕ) (us : List (String × Bytes)) (es : List Entry)
      → entries_of b f total us ≡ ok es
      → names q es ≡ targets q us
  unfolding names targets
  entries-names q total [] [] h = refl
  entries-names q total [] (e ∷ es) h = unfold entries_of in absurd (ground arith)
  entries-names q total ((p, c) ∷ us) es h =
      let r = round b f total p c us es h in
      rw r.split (
        rw (r.described.at_path) (
          ap (λ x. (p == q) || x)
            (entries-names q (total + (length c + size r.entry.old)) us r.others r.rest)))

  updated-Has_skip :
      (p : String) (c : Bytes) (us vs : List (String × Bytes))
      → targets p vs ≡ false
      → Has (updated b f us) vs
      → Has (updated b f ((p, c) ∷ us)) vs
  unfolding targets updated
  updated-Has_skip p c us [] n k = tt
  updated-Has_skip p c us ((q, x) ∷ vs) n k =
      (ground (arith, eq_iff p q, eq_iff q p, k.0), updated-Has_skip p c us vs (ground arith) k.1)

  updated-Has : (us : List (String × Bytes)) → distinct us ≡ true → Has (updated b f us) us
  unfolding distinct
  updated-Has [] d = tt
  updated-Has ((p, c) ∷ us) d = (
    unfold updated in ground (arith, eq_refl p),
    updated-Has_skip p c us us (ground arith) (updated-Has us (ground arith)),
  )

  updated-outside :
      (q : String) (us : List (String × Bytes)) → targets q us ≡ false → updated b f us q ≡ f q
  unfolding targets updated
  updated-outside q [] n = refl
  updated-outside q ((p, c) ∷ us) n = ground (arith, updated-outside q us)

  entries-Transaction :
      (us : List (String × Bytes)) (es : List Entry)
      → entries_of b f 0 us ≡ ok es
      → es ≢ []
      → distinct us ≡ true
      → plain_modes b f us ≡ true
      → Transaction b es f (updated b f us)
  unfolding unseen
  entries-Transaction us es h n d m = record {
    some_entry = n;
    valid = entries-valid [] 0 us es h d m refl;
    from_old = entries-old 0 us es h;
    to_new = entries-new (updated b f us) 0 us es h (updated-Has us d);
    outside = λ q k. updated-outside q us (sym (entries-names q 0 us es h) ∙ k);
  }

-- A successful `prepare` writes a journal of this form and changes no target.
pub prepare-Transaction :
    (b : Bundle) (us : List (String × Bytes)) (d : Disk)
    → (prepare b fine us d).1 ≡ ok tt
    → distinct us ≡ true
    → plain_modes b d.files us ≡ true
    → (es : List Entry) × Transaction b es d.files (updated b d.files us)
      × ((prepare b fine us d).0 ≡ record d { journal = stored (journal_of prepared es) })
unfolding prepare
prepare-Transaction b us d h dis m = elim (Result-cases (entries_of b d.files 0 us)) [
  | inr (x, e) ↦ absurd (ground arith)
  | inl ([], e) ↦ absurd (ground arith)
  | inl (x ∷ es, e) ↦
      (x ∷ es, entries-Transaction b d.files us (x ∷ es) e (λ z. cc) dis m, ground arith)
]
