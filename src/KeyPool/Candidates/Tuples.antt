-- ===== src/KeyPool/Candidates/Tuples.antt =====
-- The comparison of sort keys is total and transitive.
use bypass_keenetic.Prelude.{true, false, ◌&&◌, List, [], ◌∷◌, ◌≡◌, refl, arith}
use bypass_keenetic.KeyPool.Candidates.Choice.{Part, plain, negated, part_less, tuple_le}

part_asym : (a b : Part) → (part_less a b && part_less b a) ≡ false
unfolding part_less
part_asym (plain a) (plain b) = ground arith
part_asym (plain a) (negated b) = ground arith
part_asym (negated a) (plain b) = ground arith
part_asym (negated a) (negated b) = ground arith

part_trans : (a b c : Part) → part_less a b ≡ true → part_less c b ≡ false → part_less a c ≡ true
unfolding part_less
part_trans (plain a) (plain b) (plain c) h k = ground arith
part_trans (plain a) (plain b) (negated c) h k = ground arith
part_trans (plain a) (negated b) c h k = ground arith
part_trans (negated a) (plain b) (plain c) h k = ground arith
part_trans (negated a) (plain b) (negated c) h k = ground arith
part_trans (negated a) (negated b) (plain c) h k = ground arith
part_trans (negated a) (negated b) (negated c) h k = ground arith

pub tuple_total : (xs ys : List Part) → tuple_le xs ys ≡ false → tuple_le ys xs ≡ true
unfolding tuple_le
tuple_total [] ys h = ground arith
tuple_total (x ∷ xs) [] h = refl
tuple_total (x ∷ xs) (y ∷ ys) h = ground (arith, tuple_total xs ys)

pub tuple_trans :
    (xs ys zs : List Part) → tuple_le xs ys ≡ true → tuple_le ys zs ≡ true → tuple_le xs zs ≡ true
unfolding tuple_le
tuple_trans [] ys zs h k = refl
tuple_trans (x ∷ xs) [] zs h k = ground arith
tuple_trans (x ∷ xs) (y ∷ ys) [] h k = ground arith
tuple_trans (x ∷ xs) (y ∷ ys) (z ∷ zs) h k = ground (
  arith,
  tuple_trans xs ys zs,
  part_trans x y z,
  part_trans x z y,
  part_trans z x y,
  part_trans z y x,
  part_trans y z x,
  part_trans y x z,
  part_asym x y,
  part_asym y z,
  part_asym z x,
)
