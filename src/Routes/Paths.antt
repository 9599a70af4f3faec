-- ===== src/Routes/Paths.antt =====
-- What the reading loop finds in a trie: the owners of the rules that overlap, rule by rule.
use bypass_keenetic.Prelude.{
  ℕ, Bool, true, false, not, ◌&&◌, ◌||◌, none, some, List, [], ◌∷◌, String, ◌==◌, if◌then◌else◌,
  ◌≡◌, refl, arith, eq_iff, Option-cases, inl, inr,
}
use bypass_keenetic.Routes.Entries.{Kind, domain, full}
use bypass_keenetic.Routes.Masks.{Mask, or_mask, has_bit, has_bit-or_mask}
use bypass_keenetic.Routes.Trie.{
  Node, node, Children, leaf, child, empty_node, domain_of, get_child, update_child, own_domain,
  own_full, insert, last_mask, children_of, overlapping,
}
use bypass_keenetic.Routes.Hosts.{overlap, no_labels, is_full}

-- The protocol at a place is among the owners that the loop collects below a node.
unfoldable pub reach : ℕ → Kind → List String → Node → Bool
unfolding children_of domain_of last_mask
reach i kind [] n = has_bit i (last_mask kind n)
reach i kind (l ∷ ls) n = elim (get_child l (children_of n)) [
  | none ↦ false
  | some c ↦ has_bit i (domain_of c) || reach i kind ls c
]

-- The node is in the trie.
unfoldable pub present : List String → Node → Bool
unfolding children_of
present [] n = true
present (l ∷ ls) n = elim (get_child l (children_of n)) [ none ↦ false | some c ↦ present ls c ]

get_child-update_child :
    (g : Node → Node) (l m : String) (cs : Children)
    → get_child m (update_child g l cs) ≡ (
        if l == m
        then some (g (elim (get_child m cs) [ none ↦ empty_node | some n ↦ n ]))
        else get_child m cs)
unfolding get_child update_child
get_child-update_child g l m leaf = ground arith
get_child-update_child g l m (child k n cs) =
    ground (arith, eq_iff l m, eq_iff k l, eq_iff k m, get_child-update_child g l m cs)

pub reach-empty : (i : ℕ) (kind : Kind) (ls : List String) → reach i kind ls empty_node ≡ false
unfolding reach empty_node has_bit get_child
reach-empty i domain [] = refl
reach-empty i full [] = refl
reach-empty i kind (l ∷ ls) = refl

no_domain : (i : ℕ) → has_bit i (domain_of empty_node) ≡ false
unfolding has_bit domain_of empty_node
no_domain i = refl

domain-insert :
    (i : ℕ) (owner : Mask) (kind : Kind) (ls : List String) (n : Node)
    → has_bit i (domain_of (insert owner kind ls n))
      ≡ (has_bit i (domain_of n) || (has_bit i owner && (not (is_full kind) && no_labels ls)))
unfolding insert domain_of own_domain is_full no_labels
domain-insert i owner domain [] (node cs d f s) = ground (arith, has_bit-or_mask i d owner)
domain-insert i owner full [] (node cs d f s) = ground arith
domain-insert i owner kind (l ∷ ls) (node cs d f s) = ground arith

pub reach-insert :
    (i : ℕ) (kind other : Kind) (ls rest : List String) (owner : Mask) (n : Node)
    → reach i kind ls (insert owner other rest n)
      ≡ (reach i kind ls n || (has_bit i owner && overlap kind other ls rest))
unfolding reach insert overlap last_mask own_full is_full no_labels
reach-insert i domain other [] [] owner (node cs d f s) = ground (arith, has_bit-or_mask i s owner)
reach-insert i domain other [] (m ∷ rest) owner (node cs d f s) =
    ground (arith, has_bit-or_mask i s owner)
reach-insert i full domain [] [] owner (node cs d f s) = ground arith
reach-insert i full full [] [] owner (node cs d f s) = ground (arith, has_bit-or_mask i f owner)
reach-insert i full other [] (m ∷ rest) owner (node cs d f s) = ground arith
reach-insert i kind other (l ∷ ls) [] owner (node cs d f s) = ground arith
reach-insert i kind other (l ∷ ls) (m ∷ rest) owner (node cs d f s) =
    elim (Option-cases (get_child l cs)) [
      | inl e ↦ ground (
        arith,
        eq_iff m l,
        eq_iff l m,
        get_child-update_child (insert owner other rest) m l cs,
        reach-empty i kind ls,
        no_domain i,
        domain-insert i owner other rest empty_node,
        reach-insert i kind other ls rest owner empty_node,
      )
      | inr (c, e) ↦ ground (
        arith,
        eq_iff m l,
        eq_iff l m,
        get_child-update_child (insert owner other rest) m l cs,
        domain-insert i owner other rest c,
        reach-insert i kind other ls rest owner c,
      )
    ]

pub present-insert :
    (ls rest : List String) (owner : Mask) (other : Kind) (n : Node)
    → present ls n ≡ true
    → present ls (insert owner other rest n) ≡ true
unfolding present insert
present-insert [] rest owner other n h = refl
present-insert (l ∷ ls) [] owner other (node cs d f s) h = h
present-insert (l ∷ ls) (m ∷ rest) owner other (node cs d f s) h =
    elim (Option-cases (get_child l cs)) [
      | inl e ↦ ground arith
      | inr (c, e) ↦ ground (
        arith,
        eq_iff m l,
        get_child-update_child (insert owner other rest) m l cs,
        present-insert ls rest owner other c,
      )
    ]

-- The node of a rule is there once the rule is.
pub present-inserted :
    (ls : List String) (owner : Mask) (other : Kind) (n : Node)
    → present ls (insert owner other ls n) ≡ true
unfolding present insert
present-inserted [] owner other n = refl
present-inserted (l ∷ ls) owner other (node cs d f s) = elim (Option-cases (get_child l cs)) [
  | inl e ↦ ground (
    arith,
    eq_iff l l,
    get_child-update_child (insert owner other ls) l l cs,
    present-inserted ls owner other empty_node,
  )
  | inr (c, e) ↦ ground (
    arith,
    eq_iff l l,
    get_child-update_child (insert owner other ls) l l cs,
    present-inserted ls owner other c,
  )
]

-- The loop reads a node that is there, and collects what can be reached.
pub overlapping-reach :
    (kind : Kind) (ls : List String) (n : Node) (acc : Mask)
    → present ls n ≡ true
    → (m : Mask) × (overlapping kind ls n acc ≡ some m)
      × ((i : ℕ) → has_bit i m ≡ (has_bit i acc || reach i kind ls n))
unfolding overlapping present reach
overlapping-reach kind [] n acc h =
    (or_mask acc (last_mask kind n), refl, λ i. has_bit-or_mask i acc (last_mask kind n))
overlapping-reach kind (l ∷ ls) n acc h = elim (Option-cases (get_child l (children_of n))) [
  | inl e ↦ ground arith
  | inr (c, e) ↦
      (let (m, o, b) = overlapping-reach kind ls c (or_mask acc (domain_of c)) (ground arith) in
        (m, ground arith, λ i. ground (arith, b i, has_bit-or_mask i acc (domain_of c))))
]
