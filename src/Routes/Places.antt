-- ===== src/Routes/Places.antt =====
-- Places of protocols in a list, labels of hosts, and predicates on all candidates.
use Prim.Native.Char.{Char, code}
use bypass_keenetic.Prelude.{
  ℕ, zero, suc, true, false, List, [], ◌∷◌, ◌++◌, String, ◌==◌, if◌then◌else◌, ◌=ℕ◌, ◌≡◌, ◌⊎◌, refl,
  arith, eq_iff, Bool-cases, inl, inr, All,
}
use bypass_keenetic.KeyPool.Catalog.{mem}
use bypass_keenetic.Routes.Strings.{split_on, push_char}
use bypass_keenetic.Routes.Overrides.{Candidate, labels_of, reverse_onto}
use bypass_keenetic.Routes.Hosts.{no_labels}

-- The place of a protocol, and the protocol at a place.
unfoldable pub position : String → List String → ℕ
position p [] = 0
position p (q ∷ protocols) = let n = position p protocols in if q == p then 0 else suc n

unfoldable pub name_at : ℕ → List String → String
name_at n [] = ""
name_at zero (q ∷ protocols) = q
name_at (suc n) (q ∷ protocols) = name_at n protocols

pub name_at-position :
    (p : String) (protocols : List String)
    → mem p protocols ≡ true
    → name_at (position p protocols) protocols ≡ p
unfolding name_at position mem
name_at-position p [] h = ground arith
name_at-position p (q ∷ protocols) h = elim (Bool-cases (q == p)) [
  | inl e ↦ ground (arith, eq_iff q p)
  | inr e ↦ ground (arith, name_at-position p protocols)
]

push_some : (mark : Char) (parts : List String) → no_labels (push_char mark parts) ≡ false
unfolding push_char no_labels
push_some mark [] = refl
push_some mark (p ∷ parts) = refl

split_some : (mark : Char) (s : String) → no_labels (split_on mark s) ≡ false
unfolding split_on
split_some mark String.[] = unfold no_labels in refl
split_some mark (String.◌∷◌ c s) = elim (Bool-cases (code c =ℕ code mark)) [
  | inl e ↦ rw e (unfold no_labels in refl)
  | inr e ↦ rw e (push_some c (split_on mark s))
]

reverse_some :
    (acc ls : List String) → no_labels acc ≡ false → no_labels (reverse_onto acc ls) ≡ false
unfolding reverse_onto
reverse_some acc [] h = h
reverse_some acc (l ∷ ls) h = reverse_some (l ∷ acc) ls (unfold no_labels in refl)

pub labels_some : (host : String) → no_labels (labels_of host) ≡ false
unfolding labels_of reverse_onto no_labels
labels_some host = elim_split (split_on "." host) (split_some "." host)
  where
    elim_split : (ls : List String) → no_labels ls ≡ false → no_labels (reverse_onto [] ls) ≡ false
    elim_split [] h = h
    elim_split (l ∷ ls) h = reverse_some (l ∷ []) ls h

-- The candidate is in the list.
abbrev pub Has : Candidate → List Candidate → Type 0
Has c [] = ⊥
Has c (d ∷ cs) = (c ≡ d) ⊎ Has c cs

pub All-map :
    (P Q : Candidate → Type 0) (cs : List Candidate)
    → ((c : Candidate) → P c → Q c)
    → All P cs
    → All Q cs
All-map P Q [] f a = tt
All-map P Q (c ∷ cs) f (a, rest) = (f c a, All-map P Q cs f rest)

pub All-join :
    (P : Candidate → Type 0) (cs ds : List Candidate) → All P cs → All P ds → All P (cs ++ ds)
All-join P [] ds a b = b
All-join P (c ∷ cs) ds (a, rest) b = (a, All-join P cs ds rest b)

pub each_listed : (cs : List Candidate) → All (λ c. Has c cs) cs
each_listed [] = tt
each_listed (c ∷ cs) =
    (inl refl, All-map (λ d. Has d cs) (λ d. Has d (c ∷ cs)) cs (λ d h. inr h) (each_listed cs))
