-- ===== src/Routes/Masks.antt =====
-- Sets of protocols: an integer by its bits, the lowest first.
use bypass_keenetic.Prelude.{
  ℕ, zero, suc, Bool, true, false, not, ◌&&◌, ◌||◌, List, [], ◌∷◌, ◌=ℕ◌, ◌≡◌, refl, arith,
}

abbrev pub Mask : Type 0
Mask = List Bool

-- `1 << index`
unfoldable pub bit : ℕ → Mask
bit zero = true ∷ []
bit (suc i) = false ∷ bit i

-- `a | b`
unfoldable pub or_mask : Mask → Mask → Mask
or_mask [] b = b
or_mask (x ∷ a) [] = x ∷ a
or_mask (x ∷ a) (y ∷ b) = (x || y) ∷ or_mask a b

-- `a == b`
unfoldable pub is_zero : Mask → Bool
is_zero [] = true
is_zero (x ∷ a) = not x && is_zero a

unfoldable pub mask_eq : Mask → Mask → Bool
unfolding is_zero
mask_eq [] b = is_zero b
mask_eq (x ∷ a) [] = not x && is_zero a
mask_eq (true ∷ a) (y ∷ b) = y && mask_eq a b
mask_eq (false ∷ a) (y ∷ b) = not y && mask_eq a b

-- The bit at a place.
unfoldable pub has_bit : ℕ → Mask → Bool
has_bit i [] = false
has_bit zero (x ∷ a) = x
has_bit (suc i) (x ∷ a) = has_bit i a

pub has_bit-or_mask : (i : ℕ) (a b : Mask) → has_bit i (or_mask a b) ≡ (has_bit i a || has_bit i b)
unfolding has_bit or_mask
has_bit-or_mask i [] b = refl
has_bit-or_mask zero (x ∷ a) [] = ground arith
has_bit-or_mask (suc i) (x ∷ a) [] = ground arith
has_bit-or_mask zero (x ∷ a) (y ∷ b) = refl
has_bit-or_mask (suc i) (x ∷ a) (y ∷ b) = has_bit-or_mask i a b

pub has_bit-bit : (i j : ℕ) → has_bit i (bit j) ≡ i =ℕ j
unfolding has_bit bit
has_bit-bit zero zero = refl
has_bit-bit zero (suc j) = ground arith
has_bit-bit (suc i) zero = ground arith
has_bit-bit (suc i) (suc j) = ground (arith, has_bit-bit i j)

is_zero-bits : (a : Mask) → ((i : ℕ) → has_bit i a ≡ false) → is_zero a ≡ true
unfolding is_zero has_bit
is_zero-bits [] h = refl
is_zero-bits (x ∷ a) h = ground (arith, h 0, is_zero-bits a (λ i. h (suc i)))

bits-is_zero : (a : Mask) (i : ℕ) → is_zero a ≡ true → has_bit i a ≡ false
unfolding is_zero has_bit
bits-is_zero [] i h = refl
bits-is_zero (x ∷ a) zero h = ground arith
bits-is_zero (x ∷ a) (suc i) h = ground (arith, bits-is_zero a i)

pub mask_eq-bits : (a b : Mask) → ((i : ℕ) → has_bit i a ≡ has_bit i b) → mask_eq a b ≡ true
unfolding mask_eq has_bit
mask_eq-bits [] b h = is_zero-bits b (λ i. ground (arith, h i))
mask_eq-bits (x ∷ a) [] h = is_zero-bits (x ∷ a) h
mask_eq-bits (true ∷ a) (y ∷ b) h = ground (arith, h 0, mask_eq-bits a b (λ i. h (suc i)))
mask_eq-bits (false ∷ a) (y ∷ b) h = ground (arith, h 0, mask_eq-bits a b (λ i. h (suc i)))

pub bits-mask_eq : (a b : Mask) (i : ℕ) → mask_eq a b ≡ true → has_bit i a ≡ has_bit i b
unfolding mask_eq has_bit
bits-mask_eq [] b i h = ground (arith, bits-is_zero b i)
bits-mask_eq (x ∷ a) [] i h = bits-is_zero (x ∷ a) i h
bits-mask_eq (true ∷ a) (y ∷ b) zero h = ground arith
bits-mask_eq (true ∷ a) (y ∷ b) (suc i) h = ground (arith, bits-mask_eq a b i)
bits-mask_eq (false ∷ a) (y ∷ b) zero h = ground arith
bits-mask_eq (false ∷ a) (y ∷ b) (suc i) h = ground (arith, bits-mask_eq a b i)
