-- ===== src/Routes/Ownership.antt =====
-- The overrides are those of a comparison of every pair of rules.
use bypass_keenetic.Prelude.{
  ℕ, Bool, true, false, not, ◌&&◌, ◌||◌, some, List, [], ◌∷◌, String, ◌==◌, if◌then◌else◌, ◌=ℕ◌,
  ◌≡◌, refl, arith, eq_iff, Bool-cases, inl, inr, ◌∙◌, All, ap, sym, subst,
}
use bypass_keenetic.KeyPool.Catalog.{protocol_display_order, mem}
use bypass_keenetic.Routes.Masks.{
  Mask, bit, has_bit, mask_eq, has_bit-bit, mask_eq-bits, bits-mask_eq,
}
use bypass_keenetic.Routes.Trie.{Node, empty_node, insert}
use bypass_keenetic.Routes.Overrides.{Candidate, labels_of, fill, unambiguous}
use bypass_keenetic.Routes.Places.{position, name_at, name_at-position, labels_some, Has}
use bypass_keenetic.Routes.Hosts.{overlap, matches_self, overlap-matches}
use bypass_keenetic.Routes.Paths.{
  reach, present, reach-empty, reach-insert, present-insert, present-inserted, overlapping-reach,
}

abbrev pub candidate_labels : Candidate → List String
candidate_labels c = labels_of c.rule.host

-- The rules of two candidates overlap.
abbrev pub share : Candidate → Candidate → Bool
share c d = overlap c.rule.kind d.rule.kind (candidate_labels c) (candidate_labels d)

-- A rule of another protocol overlaps the candidate's.
unfoldable pub contested : Candidate → List Candidate → Bool
contested c [] = false
contested c (d ∷ cs) = (not (d.protocol == c.protocol) && share c d) || contested c cs

-- The candidates among the first that none among the second contests.
unfoldable pub uncontested : List Candidate → List Candidate → List Candidate
unfolding contested
uncontested [] all = []
uncontested (c ∷ cs) all =
    let rest = uncontested cs all in if contested c all then rest else c ∷ rest

-- A rule with the owner at this place overlaps.
unfoldable reached : ℕ → Candidate → List Candidate → Bool
reached i c [] = false
reached i c (d ∷ cs) = (has_bit i d.owner && share c d) || reached i c cs

reach-fill :
    (i : ℕ) (c : Candidate) (cs : List Candidate) (n : Node)
    → reach i c.rule.kind (candidate_labels c) (fill cs n)
      ≡ (reach i c.rule.kind (candidate_labels c) n || reached i c cs)
unfolding fill reached
reach-fill i c [] n = ground arith
reach-fill i c (d ∷ cs) n = ground (
  arith,
  reach-insert i c.rule.kind d.rule.kind (candidate_labels c) (candidate_labels d) d.owner n,
  reach-fill i c cs (insert d.owner d.rule.kind (candidate_labels d) n),
)

present-fill :
    (ls : List String) (cs : List Candidate) (n : Node)
    → present ls n ≡ true
    → present ls (fill cs n) ≡ true
unfolding fill
present-fill ls [] n h = h
present-fill ls (d ∷ cs) n h =
    present-fill ls cs (insert d.owner d.rule.kind (candidate_labels d) n)
      (present-insert ls (candidate_labels d) d.owner d.rule.kind n h)

pub nodes_there :
    (cs : List Candidate) (n : Node) → All (λ c. present (candidate_labels c) (fill cs n) ≡ true) cs
unfolding fill
nodes_there [] n = tt
nodes_there (d ∷ cs) n =
    let n' = insert d.owner d.rule.kind (candidate_labels d) n in
    (
      present-fill (candidate_labels d) cs n'
          (present-inserted (candidate_labels d) d.owner d.rule.kind n),
      nodes_there cs n',
    )

-- A candidate of the catalogue has the bit of its protocol's place.
abbrev pub Owned : Candidate → Type 0
Owned c =
    (c.owner ≡ bit (position c.protocol protocol_display_order))
    × (mem c.protocol protocol_display_order ≡ true)

place : Candidate → ℕ
place c = position c.protocol protocol_display_order

owner-bit : (i : ℕ) (c : Candidate) → Owned c → has_bit i c.owner ≡ i =ℕ place c
unfolding place
owner-bit i c (e, m) = ap (has_bit i) e ∙ has_bit-bit i (position c.protocol protocol_display_order)

same_place : (c d : Candidate) → Owned c → Owned d → place d ≡ place c → d.protocol ≡ c.protocol
unfolding place
same_place c d (e, m) (e', m') h =
    sym (name_at-position d.protocol protocol_display_order m')
    ∙ (ap (λ n. name_at n protocol_display_order) h
        ∙ name_at-position c.protocol protocol_display_order m)

reached_uncontested :
    (i : ℕ) (c : Candidate) (cs : List Candidate)
    → All Owned cs
    → contested c cs ≡ false
    → i =ℕ place c ≡ false
    → reached i c cs ≡ false
unfolding reached contested place
reached_uncontested i c [] o h n = refl
reached_uncontested i c (d ∷ cs) (o, os) h n =
    ground (arith, eq_iff d.protocol c.protocol, owner-bit i d o, reached_uncontested i c cs os)

contested-reached :
    (c : Candidate) (cs : List Candidate)
    → Owned c
    → All Owned cs
    → contested c cs ≡ true
    → (i : ℕ) × (i =ℕ place c ≡ false) × (reached i c cs ≡ true)
unfolding reached contested
contested-reached c [] o os h = ground arith
contested-reached c (d ∷ cs) o (o', os) h =
    elim (Bool-cases (not (d.protocol == c.protocol) && share c d)) [
      | inl e ↦ (
        place d,
        ground (arith, eq_iff d.protocol c.protocol, same_place c d o o'),
        ground (arith, owner-bit (place d) d o'),
      )
      | inr e ↦ (let (i, n, r) = contested-reached c cs o os (ground arith) in (i, n, ground arith))
    ]

share_self : (c : Candidate) → share c c ≡ true
share_self c =
    let ls = candidate_labels c in
    (overlap-matches c.rule.kind c.rule.kind ls ls (labels_some c.rule.host)).1
      (ls, matches_self c.rule.kind ls, matches_self c.rule.kind ls)

reached_self :
    (c : Candidate) (cs : List Candidate) → All Owned cs → Has c cs → reached (place c) c cs ≡ true
unfolding reached
reached_self c [] os h = elim h [ ]
reached_self c (d ∷ cs) (o, os) (inl e) =
    ground
      (arith, subst (λ x. share c x ≡ true) e (share_self c), owner-bit (place c) d o, ap place e)
reached_self c (d ∷ cs) (o, os) (inr h) = ground (arith, reached_self c cs os h)

-- The test of the reading loop.
test-contested :
    (c : Candidate) (cs : List Candidate) (m : Mask)
    → All Owned cs
    → Owned c
    → Has c cs
    → ((i : ℕ) → has_bit i m ≡ reached i c cs)
    → mask_eq m c.owner ≡ not (contested c cs)
test-contested c cs m os o h b = elim (Bool-cases (contested c cs)) [
  | inl e ↦
      (let (i, n, r) = contested-reached c cs o os e in
        ground (arith, bits-mask_eq m c.owner i, b i, owner-bit i c o))
  | inr e ↦ ground (
    arith,
    mask_eq-bits m c.owner (λ i. elim (Bool-cases (i =ℕ place c)) [
      | inl p ↦ ground (arith, b i, owner-bit i c o, reached_self c cs os h)
      | inr p ↦ ground (arith, b i, owner-bit i c o, reached_uncontested i c cs os e p)
    ]),
  )
]

collected :
    (c : Candidate) (whole : List Candidate) (m : Mask)
    → ((i : ℕ)
        → has_bit i m
          ≡ (has_bit i [] || reach i c.rule.kind (candidate_labels c) (fill whole empty_node)))
    → (i : ℕ) → has_bit i m ≡ reached i c whole
unfolding has_bit
collected c whole m b i =
    ground
      (arith, b i, reach-fill i c whole empty_node, reach-empty i c.rule.kind (candidate_labels c))

pub reading :
    (cs whole : List Candidate)
    → All Owned whole
    → All (λ c. present (candidate_labels c) (fill whole empty_node) ≡ true) cs
    → All Owned cs
    → All (λ c. Has c whole) cs
    → unambiguous (fill whole empty_node) cs ≡ some (uncontested cs whole)
unfolding unambiguous uncontested
reading [] whole ow p o h = refl
reading (c ∷ cs) whole ow (p, ps) (o, os) (h, hs) =
    let n = fill whole empty_node in
    let (m, e, b) = overlapping-reach c.rule.kind (candidate_labels c) n [] p in
    ground (
      arith,
      e,
      reading cs whole ow ps os hs,
      test-contested c whole m ow o h (collected c whole m b),
    )
