-- ===== src/Prelude/Text.antt =====
-- Python's `str`: the white space that `str.strip` removes, and `strip`.
use Prim.Native.Nat.{ℕ}
use Prim.Native.Char.{Char, code}
use Prim.Native.String.{String, [], ◌∷◌}
use mathlib.Core.Path.{◌≡◌, refl}
use mathlib.Core.Logic.{inl, inr}
use mathlib.Core.Bool.{Bool, false, ◌&&◌, ◌||◌}
use bypass_keenetic.Prelude.Tests.{if◌then◌else◌, leb, ◌=ℕ◌, Bool-cases}

-- The code points for which `str.isspace` holds.
unfoldable pub is_space : ℕ → Bool
is_space c =
    (leb 9 c && leb c 13)
    || (leb 28 c && leb c 32)
    || c =ℕ 133
    || c =ℕ 160
    || c =ℕ 5760
    || (leb 8192 c && leb c 8202)
    || c =ℕ 8232
    || c =ℕ 8233
    || c =ℕ 8239
    || c =ℕ 8287
    || c =ℕ 12288

unfoldable pub lstrip : String → String
lstrip [] = []
lstrip (c ∷ s) = let rest = lstrip s in if is_space (code c) then rest else c ∷ s

-- `c` in front of a text that has no white space at its end.
unfoldable pub put_back : Char → String → String
put_back c [] = if is_space (code c) then [] else c ∷ []
put_back c (d ∷ s) = c ∷ d ∷ s

unfoldable pub rstrip : String → String
rstrip [] = []
rstrip (c ∷ s) = put_back c (rstrip s)

unfoldable pub strip : String → String
unfolding is_space lstrip rstrip put_back
strip s = rstrip (lstrip s)

strip_front :
    (c : Char) (s : String) → is_space (code c) ≡ false → lstrip (put_back c s) ≡ put_back c s
unfolding lstrip put_back
strip_front c [] h = rw (h, lstrip) (rw h)
strip_front c (d ∷ s) h = rw h

rstrip_back : (c : Char) (r : String) → rstrip r ≡ r → rstrip (put_back c r) ≡ put_back c r
unfolding rstrip put_back
rstrip_back c [] h = elim (Bool-cases (is_space (code c))) [
  | inl p ↦ rw (p, put_back)
  | inr p ↦ rw (p, put_back) (rw (p, put_back))
]
rstrip_back c (d ∷ r) h = rw (h, put_back)

rstrip_twice : (s : String) → rstrip (rstrip s) ≡ rstrip s
unfolding rstrip
rstrip_twice [] = refl
rstrip_twice (c ∷ s) = rstrip_back c (rstrip s) (rstrip_twice s)

lstrip_kept : (s : String) → lstrip (rstrip (lstrip s)) ≡ rstrip (lstrip s)
unfolding lstrip
lstrip_kept [] = unfold rstrip in refl
lstrip_kept (c ∷ s) = elim (Bool-cases (is_space (code c))) [
  | inl p ↦ rw p (lstrip_kept s)
  | inr p ↦ rw p (unfold rstrip in strip_front c (rstrip s) p)
]

-- `strip` removes nothing more from its own result.
pub strip-strip : (s : String) → strip (strip s) ≡ strip s
unfolding strip
strip-strip s = rw lstrip_kept (rstrip_twice (lstrip s))
