-- ===== src/Switch/Letters.antt =====
-- `str.lower` on the letters A to Z, hexadecimal texts, and the front of a text.
use Prim.Native.Char.{Char, code}
use Prim.Native.String.{String, [], ◌∷◌, char_at}
use bypass_keenetic.Prelude.{
  ℕ, zero, suc, ◌-◌, Bool, true, false, ◌&&◌, ◌||◌, if◌then◌else◌, leb, ◌≡◌, refl, arith,
}
use bypass_keenetic.Prelude.Text.{strip, lstrip, rstrip, put_back, is_space}

unfoldable pub lower_char : Char → Char
lower_char c =
    if leb 65 (code c) && leb (code c) 90
    then char_at "abcdefghijklmnopqrstuvwxyz" (code c - 65)
    else c

-- Other letters stay as they are. None of them has a lower-case form that the program looks for.
unfoldable pub lower : String → String
unfolding lower_char
lower [] = []
lower (c ∷ s) = lower_char c ∷ lower s

unfoldable pub is_hex : Char → Bool
is_hex c = (leb 48 (code c) && leb (code c) 57) || (leb 97 (code c) && leb (code c) 102)

-- `all(char in '0123456789abcdef' for char in s)`
unfoldable pub all_hex : String → Bool
unfolding is_hex
all_hex [] = true
all_hex (c ∷ s) = is_hex c && all_hex s

-- `s[:n]`
unfoldable pub front : ℕ → String → String
front zero s = []
front (suc n) [] = []
front (suc n) (c ∷ s) = c ∷ front n s

lower_char-hex : (c : Char) → is_hex c ≡ true → lower_char c ≡ c
unfolding lower_char is_hex
lower_char-hex c h = ground arith

pub lower-hex : (s : String) → all_hex s ≡ true → lower s ≡ s
unfolding lower all_hex
lower-hex [] h = refl
lower-hex (c ∷ s) h = ground (arith, lower_char-hex c, lower-hex s)

not_space : (c : Char) → is_hex c ≡ true → is_space (code c) ≡ false
unfolding is_hex is_space
not_space c h = ground arith

put_back-hex : (c : Char) (s : String) → is_hex c ≡ true → put_back c s ≡ c ∷ s
unfolding put_back
put_back-hex c [] h = rw (not_space c h)
put_back-hex c (d ∷ s) h = refl

rstrip-hex : (s : String) → all_hex s ≡ true → rstrip s ≡ s
unfolding rstrip all_hex
rstrip-hex [] h = refl
rstrip-hex (c ∷ s) h = ground (arith, put_back-hex c s, rstrip-hex s)

lstrip-hex : (s : String) → all_hex s ≡ true → lstrip s ≡ s
unfolding lstrip all_hex
lstrip-hex [] h = refl
lstrip-hex (c ∷ s) h = ground (arith, not_space c)

pub strip-hex : (s : String) → all_hex s ≡ true → strip s ≡ s
unfolding strip
strip-hex s h = rw (lstrip-hex s h) (rstrip-hex s h)
