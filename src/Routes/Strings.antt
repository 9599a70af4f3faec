-- ===== src/Routes/Strings.antt =====
-- The parts of texts that the compiler of rules looks at.
use Prim.Native.Char.{Char, code}
use Prim.Native.String.{String, [], ◌∷◌}
use mathlib.Core.List
use bypass_keenetic.Prelude.{Bool, false, ◌||◌, Option, none, some, if◌then◌else◌, ◌=ℕ◌, is_some}

-- `text.split('#', 1)[0]`, for any character.
unfoldable pub before : Char → String → String
before mark [] = []
before mark (c ∷ s) = let rest = before mark s in if code c =ℕ code mark then [] else c ∷ rest

-- `text[len(prefix):]` if `text.startswith(prefix)`
unfoldable pub after_prefix : String → String → Option String
after_prefix [] s = some s
after_prefix (p ∷ prefix) [] = none
after_prefix (p ∷ prefix) (c ∷ s) = if code p =ℕ code c then after_prefix prefix s else none

-- `sub in text`
unfoldable pub contains : String → String → Bool
unfolding after_prefix
contains sub [] = is_some (after_prefix sub [])
contains sub (c ∷ s) = is_some (after_prefix sub (c ∷ s)) || contains sub s

-- A character of the text.
unfoldable pub has_char : Char → String → Bool
has_char c [] = false
has_char c (d ∷ s) = code d =ℕ code c || has_char c s

-- `text.lstrip(marks)` and `text.rstrip(marks)`
unfoldable pub lstrip_chars : String → String → String
unfolding has_char
lstrip_chars marks [] = []
lstrip_chars marks (c ∷ s) =
    let rest = lstrip_chars marks s in if has_char c marks then rest else c ∷ s

unfoldable pub keep_front : String → Char → String → String
unfolding has_char
keep_front marks c [] = if has_char c marks then [] else c ∷ []
keep_front marks c (d ∷ s) = c ∷ d ∷ s

unfoldable pub rstrip_chars : String → String → String
unfolding keep_front
rstrip_chars marks [] = []
rstrip_chars marks (c ∷ s) = keep_front marks c (rstrip_chars marks s)

-- A character in front of the first part.
unfoldable pub push_char : Char → List.List String → List.List String
push_char c List.[] = List.◌∷◌ (c ∷ []) List.[]
push_char c (List.◌∷◌ part parts) = List.◌∷◌ (c ∷ part) parts

-- `text.split(mark)` for a mark of one character.
unfoldable pub split_on : Char → String → List.List String
unfolding push_char
split_on mark [] = List.◌∷◌ [] List.[]
split_on mark (c ∷ s) =
    let rest = split_on mark s in if code c =ℕ code mark then List.◌∷◌ [] rest else push_char c rest
