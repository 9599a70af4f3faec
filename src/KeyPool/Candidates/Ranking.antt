-- ===== src/KeyPool/Candidates/Ranking.antt =====
-- The order of the candidates, and what the parts of their sort keys stand for.
use bypass_keenetic.Prelude.{
  ℕ, zero, suc, ◌+◌, Bool, true, ◌&&◌, ◌||◌, Option, none, some, List, [], ◌∷◌, ◌++◌, String, ◌==◌,
  if◌then◌else◌, ltb, leb, ◌=ℕ◌, ◌≡◌, refl, arith, Bool-cases, inl, inr, All, subst, sym, ap,
}
use bypass_keenetic.Prelude.Text.{strip}
use bypass_keenetic.KeyPool.Pools.{Pools, pool, normalize_key_pools}
use bypass_keenetic.KeyPool.Candidates.Probe.{Query, score_of, checked_ts}
use bypass_keenetic.KeyPool.Candidates.Choice.{
  Scored, admitted, scored, from_pool, from_protocols, priority, protocol_order, part_less,
  tuple_le, sort_key, insert_scored, sort_candidates, ranked,
}
use bypass_keenetic.KeyPool.Candidates.Order.{Precedes, Sorted, sort_candidates-Sorted}

-- The first number is smaller, or they are the same and the rest decides.
abbrev pub smaller : ℕ → ℕ → Bool → Bool
smaller a b rest = ltb a b || (a =ℕ b && rest)

-- For YouTube: the protocol's place, the higher score, the later check, the place in the pool. Otherwise: the
-- higher score, the check, the protocol's place, the place in the pool; of two keys with the score 1 or 0 the
-- one whose check is older comes first, of others the one whose check is newer.
abbrev pub comes_first : Query → Scored → Scored → Bool
comes_first q c d =
    if q.service == "youtube"
    then smaller c.proto_rank d.proto_rank
        (smaller d.score c.score (smaller d.checked c.checked (leb c.index d.index)))
    else smaller d.score c.score (
        if leb c.score 1
        then smaller c.checked d.checked (smaller c.proto_rank d.proto_rank (leb c.index d.index))
        else smaller d.checked c.checked (smaller c.proto_rank d.proto_rank (leb c.index d.index)))

-- Each candidate comes before all that follow it.
abbrev pub Ordered : Query → List Scored → Type 0
Ordered q [] = Unit {0}
Ordered q (c ∷ cs) = All (λ d. comes_first q c d ≡ true) cs × Ordered q cs

tuple_le-comes_first :
    (q : Query) (c d : Scored) → tuple_le (sort_key q c) (sort_key q d) ≡ comes_first q c d
unfolding tuple_le part_less sort_key
tuple_le-comes_first q c d = elim (Bool-cases (q.service == "youtube")) [
  | inl youtube ↦ ground arith
  | inr other ↦ ground arith
]

All-later :
    (q : Query) (c : Scored) (cs : List Scored)
    → All (Precedes q c) cs
    → All (λ d. comes_first q c d ≡ true) cs
All-later q c [] a = tt
All-later q c (d ∷ cs) (h, a) = (ground (arith, tuple_le-comes_first q c d, h), All-later q c cs a)

pub Sorted-Ordered : (q : Query) (cs : List Scored) → Sorted q cs → Ordered q cs
Sorted-Ordered q [] s = tt
Sorted-Ordered q (c ∷ cs) (a, s) = (All-later q c cs a, Sorted-Ordered q cs s)

-- The text at this place of the list.
abbrev pub text_at : ℕ → List String → Option String
text_at n [] = none
text_at zero (x ∷ xs) = some x
text_at (suc n) (x ∷ xs) = text_at n xs

-- The parts of the candidate are the score and the time of its key, the place of its protocol among the
-- protocols, and the place of its key in the pool.
pub record Placed (q : Query) (pools : Pools) (protos : List String) (base : ℕ) (c : Scored)
    : Type 0 where
  pub score : c.score ≡ score_of q c.key
  pub checked : c.checked ≡ checked_ts q c.key
  pub rank : (n : ℕ) × (c.proto_rank ≡ base + n) × (text_at n protos ≡ some c.proto)
  pub index :
      (raw : String) × (text_at c.index (pool pools c.proto) ≡ some raw) × (strip raw ≡ c.key)

-- The same within one pool, from an index on.
record InPool (q : Query) (proto : String) (rank base : ℕ) (keys : List String) (c : Scored)
    : Type 0 where
  score : c.score ≡ score_of q c.key
  checked : c.checked ≡ checked_ts q c.key
  same_rank : c.proto_rank ≡ rank
  same_proto : c.proto ≡ proto
  index :
      (n : ℕ) × (raw : String) × (c.index ≡ base + n)
      × (text_at n keys ≡ some raw)
      × (strip raw ≡ c.key)

All-append : (P : Scored → Type 0) (cs ds : List Scored) → All P cs → All P ds → All P (cs ++ ds)
All-append P [] ds a b = b
All-append P (c ∷ cs) ds (h, a) b = (h, All-append P cs ds a b)

All-map :
    (P Q : Scored → Type 0) (cs : List Scored) → ((c : Scored) → P c → Q c) → All P cs → All Q cs
All-map P Q [] f a = tt
All-map P Q (c ∷ cs) f (h, a) = (f c h, All-map P Q cs f a)

from_pool-InPool :
    (q : Query) (current : String × String) (proto : String) (rank base : ℕ) (keys : List String)
    → All (InPool q proto rank base keys) (from_pool q current proto rank base keys)
unfolding from_pool scored
from_pool-InPool q current proto rank base [] = tt
from_pool-InPool q current proto rank base (raw ∷ keys) =
    let rest =
      All-map (InPool q proto rank (suc base) keys) (InPool q proto rank base (raw ∷ keys))
        (from_pool q current proto rank (suc base) keys)
        (λ c h.
          (let (n, r, i, t, s) = h.index in
            record {
              score = h.score;
              checked = h.checked;
              same_rank = h.same_rank;
              same_proto = h.same_proto;
              index = (suc n, r, omega (arith, i), t, s);
            }))
        (from_pool-InPool q current proto rank (suc base) keys) in
    elim (Bool-cases (admitted q current proto (strip raw))) [
      | inl taken ↦
          rw (taken, from_pool)
            (
              record {
                score = refl;
                checked = refl;
                same_rank = refl;
                same_proto = refl;
                index = (0, raw, omega arith, refl, refl);
              },
              rest,
            )
      | inr skipped ↦ rw (skipped, from_pool) rest
    ]

from_protocols-Placed :
    (q : Query) (current : String × String) (pools : Pools) (base : ℕ) (protos : List String)
    → All (Placed q pools protos base) (from_protocols q current pools base protos)
unfolding from_protocols
from_protocols-Placed q current pools base [] = tt
from_protocols-Placed q current pools base (p ∷ protos) =
    All-append (Placed q pools (p ∷ protos) base) (from_pool q current p base 0 (pool pools p))
      (from_protocols q current pools (suc base) protos)
      (All-map (InPool q p base 0 (pool pools p)) (Placed q pools (p ∷ protos) base)
        (from_pool q current p base 0 (pool pools p))
        (λ c h.
          (let (n, r, i, t, s) = h.index in
            record {
              score = h.score;
              checked = h.checked;
              rank = (0, omega (arith, h.same_rank), ap some (sym h.same_proto));
              index = (
                r,
                subst (λ x. text_at c.index (pool pools x) ≡ some r) (sym h.same_proto)
                    (let place : n ≡ c.index = omega (arith, i) in
                      subst (λ j. text_at j (pool pools p) ≡ some r) place t),
                s,
              );
            }))
        (from_pool-InPool q current p base 0 (pool pools p)))
      (All-map (Placed q pools protos (suc base)) (Placed q pools (p ∷ protos) base)
        (from_protocols q current pools (suc base) protos)
        (λ c h.
          (let (n, r, t) = h.rank in
            record {
              score = h.score;
              checked = h.checked;
              rank = (suc n, omega (arith, r), t);
              index = h.index;
            }))
        (from_protocols-Placed q current pools (suc base) protos))

All-insert :
    (P : Scored → Type 0) (q : Query) (c : Scored) (cs : List Scored)
    → P c
    → All P cs
    → All P (insert_scored q c cs)
unfolding insert_scored
All-insert P q c [] h a = (h, tt)
All-insert P q c (d ∷ cs) h (k, a) = elim (Bool-cases (tuple_le (sort_key q c) (sort_key q d))) [
  | inl le ↦ rw le (h, (k, a))
  | inr gt ↦ rw gt (k, All-insert P q c cs h a)
]

pub All-sort :
    (P : Scored → Type 0) (q : Query) (cs : List Scored) → All P cs → All P (sort_candidates q cs)
unfolding sort_candidates
All-sort P q [] a = tt
All-sort P q (c ∷ cs) (h, a) = All-insert P q c (sort_candidates q cs) h (All-sort P q cs a)

-- The protocols in the order in which the code goes through them.
abbrev pub searched : Pools → String → List String → List String
searched pools proto protocols = priority proto (protocol_order pools protocols)

pub ranked-Ordered :
    (q : Query) (pools : Pools) (current_proto current_key : String) (protocols : List String)
    → Ordered q (ranked q pools current_proto current_key protocols)
      × All
          (Placed q
            (normalize_key_pools pools)
            (searched (normalize_key_pools pools) (strip current_proto) protocols)
            0)
          (ranked q pools current_proto current_key protocols)
unfolding ranked
ranked-Ordered q pools current_proto current_key protocols =
    let ps = normalize_key_pools pools in
    let proto = strip current_proto in
    let protos = searched ps proto protocols in
    let cs = from_protocols q (proto, strip current_key) ps 0 protos in
    (
      Sorted-Ordered q (sort_candidates q cs) (sort_candidates-Sorted q cs),
      All-sort (Placed q ps protos 0) q cs
          (from_protocols-Placed q (proto, strip current_key) ps 0 protos),
    )
