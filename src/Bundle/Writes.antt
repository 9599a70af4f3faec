-- ===== src/Bundle/Writes.antt =====
-- The write loops against the files before a transaction and the files that it aims at.
use bypass_keenetic.Prelude.{
  Bool, false, Option, List, [], ◌∷◌, String, ◌==◌, any, ok, ◌≡◌, refl, ◌⊎◌, arith, eq_iff, All,
}
use bypass_keenetic.Bundle.Disk.{
  Bytes, Files, Entry, Fault, fine, node_of, write, write_all, later_faults,
}

-- The entry is one of the path's.
unfoldable pub names : String → List Entry → Bool
names q es = any (λ e. e.path == q) es

-- What the loop writes at each entry is what `g` has there.
abbrev pub Aims : (Entry → Option Bytes) → Files → List Entry → Type 0
Aims v g es = All (λ e. node_of (v e) e.info ≡ g e.path) es

-- Each file is as in `f` or as in `g`.
abbrev pub Between : Files → Files → Files → Type 0
Between f g h = (q : String) → (h q ≡ f q) ⊎ (h q ≡ g q)

module _ (v : Entry → Option Bytes) (g : Files) where
  write-Between :
      (f : Files) (x : Fault) (e : Entry) (h : Files)
      → node_of (v e) e.info ≡ g e.path
      → Between f g h
      → Between f g (write x e (v e) h).0
  unfolding write
  write-Between f x e h aim k q = ground (arith, eq_iff e.path q, k q)

  -- Whatever the faults, each file ends as in `f` or as in `g`.
  pub write_all-Between :
      (f : Files) (xs : List Fault) (es : List Entry) (h : Files)
      → Aims v g es
      → Between f g h
      → Between f g (write_all v xs es h).0
  unfolding write_all
  write_all-Between f xs [] h aim k = k
  write_all-Between f xs (e ∷ es) h aim k = λ q. ground (
    arith,
    k q,
    write-Between f fine e h aim.0 k q,
    write_all-Between f (later_faults xs) es (write fine e (v e) h).0 aim.1
        (write-Between f fine e h aim.0 k) q,
  )

  write_fine :
      (e : Entry) (es : List Entry) (h : Files)
      → node_of (v e) e.info ≡ g e.path
      → ((q : String) → names q (e ∷ es) ≡ false → h q ≡ g q)
      → (q : String) → names q es ≡ false
      → (write fine e (v e) h).0 q ≡ g q
  unfolding write names
  write_fine e es h aim k q n = ground (arith, eq_iff e.path q, k q)

  -- A loop that ends well leaves each file as in `g`, if the files it does not name are so before.
  pub write_all-ok :
      (xs : List Fault) (es : List Entry) (h : Files)
      → Aims v g es
      → ((q : String) → names q es ≡ false → h q ≡ g q)
      → (q : String) → (write_all v xs es h).1 ≡ ok tt
      → (write_all v xs es h).0 q ≡ g q
  unfolding write_all
  write_all-ok xs [] h aim k q done = k q (unfold names in refl)
  write_all-ok xs (e ∷ es) h aim k q done = ground (
    arith,
    write_all-ok (later_faults xs) es (write fine e (v e) h).0 aim.1 (write_fine e es h aim.0 k) q,
  )

  -- Without faults the loop ends well.
  pub write_all-fine : (es : List Entry) (h : Files) → (write_all v [] es h).1 ≡ ok tt
  unfolding write_all
  write_all-fine [] h = refl
  write_all-fine (e ∷ es) h = write_all-fine es (write fine e (v e) h).0
