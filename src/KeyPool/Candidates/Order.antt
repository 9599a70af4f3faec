-- ===== src/KeyPool/Candidates/Order.antt =====
-- The sort orders the candidates and keeps them.
use bypass_keenetic.Prelude.{
  Bool, true, false, ◌&&◌, ◌||◌, List, [], ◌∷◌, String, ◌==◌, ◌≡◌, refl, arith, Bool-cases, inl,
  inr, All,
}
use bypass_keenetic.KeyPool.Candidates.Probe.{Query}
use bypass_keenetic.KeyPool.Candidates.Choice.{
  Scored, tuple_le, sort_key, insert_scored, sort_candidates, keys_of,
}
use bypass_keenetic.KeyPool.Candidates.Tuples.{tuple_total, tuple_trans}

-- The sort key of the first is at most that of the second.
abbrev pub Precedes : Query → Scored → Scored → Type 0
Precedes q c d = tuple_le (sort_key q c) (sort_key q d) ≡ true

-- Each candidate precedes all that follow it.
abbrev pub Sorted : Query → List Scored → Type 0
Sorted q [] = Unit
Sorted q (c ∷ cs) = All (Precedes q c) cs × Sorted q cs

ahead_of_later :
    (q : Query) (c d : Scored) (cs : List Scored)
    → Precedes q c d
    → All (Precedes q d) cs
    → All (Precedes q c) cs
ahead_of_later q c d [] h a = tt
ahead_of_later q c d (e ∷ cs) h (k, a) =
    (tuple_trans (sort_key q c) (sort_key q d) (sort_key q e) h k, ahead_of_later q c d cs h a)

ahead_of_inserted :
    (q : Query) (c d : Scored) (cs : List Scored)
    → Precedes q d c
    → All (Precedes q d) cs
    → All (Precedes q d) (insert_scored q c cs)
unfolding insert_scored
ahead_of_inserted q c d [] h a = (h, tt)
ahead_of_inserted q c d (e ∷ cs) h (k, a) =
    elim (Bool-cases (tuple_le (sort_key q c) (sort_key q e))) [
      | inl le ↦ rw le (h, (k, a))
      | inr gt ↦ rw gt (k, ahead_of_inserted q c d cs h a)
    ]

insert_scored-Sorted :
    (q : Query) (c : Scored) (cs : List Scored) → Sorted q cs → Sorted q (insert_scored q c cs)
unfolding insert_scored
insert_scored-Sorted q c [] s = (tt, tt)
insert_scored-Sorted q c (d ∷ cs) (a, s) =
    elim (Bool-cases (tuple_le (sort_key q c) (sort_key q d))) [
      | inl le ↦ rw le ((le, ahead_of_later q c d cs le a), (a, s))
      | inr gt ↦ rw gt (
        ahead_of_inserted q c d cs (tuple_total (sort_key q c) (sort_key q d) gt) a,
        insert_scored-Sorted q c cs s,
      )
    ]

pub sort_candidates-Sorted : (q : Query) (cs : List Scored) → Sorted q (sort_candidates q cs)
unfolding sort_candidates
sort_candidates-Sorted q [] = tt
sort_candidates-Sorted q (c ∷ cs) =
    insert_scored-Sorted q c (sort_candidates q cs) (sort_candidates-Sorted q cs)

-- `(proto, key) in candidates`
unfoldable pub mem_pair : String → String → List (String × String) → Bool
mem_pair p k [] = false
mem_pair p k ((p', k') ∷ pairs) = (p' == p && k' == k) || mem_pair p k pairs

mem_pair-insert_scored :
    (q : Query) (p k : String) (c : Scored) (cs : List Scored)
    → mem_pair p k (keys_of (insert_scored q c cs)) ≡ mem_pair p k (keys_of (c ∷ cs))
unfolding insert_scored keys_of mem_pair
mem_pair-insert_scored q p k c [] = refl
mem_pair-insert_scored q p k c (d ∷ cs) =
    elim (Bool-cases (tuple_le (sort_key q c) (sort_key q d))) [
      | inl le ↦ rw le refl
      | inr gt ↦ rw gt (ground (arith, mem_pair-insert_scored q p k c cs))
    ]

pub mem_pair-sort_candidates :
    (q : Query) (p k : String) (cs : List Scored)
    → mem_pair p k (keys_of (sort_candidates q cs)) ≡ mem_pair p k (keys_of cs)
unfolding sort_candidates keys_of mem_pair
mem_pair-sort_candidates q p k [] = refl
mem_pair-sort_candidates q p k (c ∷ cs) = ground (
  arith,
  mem_pair-insert_scored q p k c (sort_candidates q cs),
  mem_pair-sort_candidates q p k cs,
)
