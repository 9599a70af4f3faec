-- ===== src/Routes/Hosts.antt =====
-- When two rules match a host that they share. A host is its labels from the last one on.
use bypass_keenetic.Prelude.{
  Bool, true, false, not, ◌&&◌, ◌||◌, List, [], ◌∷◌, String, ◌==◌, ◌≡◌, ◌↔◌, refl, arith, eq_iff,
}
use bypass_keenetic.Routes.Entries.{Kind, domain, full}

unfoldable pub no_labels : List String → Bool
no_labels [] = true
no_labels (l ∷ ls) = false

-- What Xray documents of the two kinds of rules: `full:` matches the host itself, `domain:` also every
-- host below it.
unfoldable pub matches : Kind → List String → List String → Bool
matches domain [] host = true
matches full [] host = no_labels host
matches kind (l ∷ ls) [] = false
matches kind (l ∷ ls) (h ∷ host) = l == h && matches kind ls host

unfoldable pub is_full : Kind → Bool
is_full domain = false
is_full full = true

-- The rules overlap, from a node on: the first has these labels left, and the second these.
unfoldable pub overlap : Kind → Kind → List String → List String → Bool
unfolding no_labels is_full
overlap kind other [] rest = not (is_full kind) || (is_full other && no_labels rest)
overlap kind other (l ∷ ls) [] = false
overlap kind other (l ∷ ls) (m ∷ rest) =
    l == m && ((not (is_full other) && no_labels rest) || overlap kind other ls rest)

-- A host that both match, if any host is.
unfoldable pub meet : List String → List String → List String
meet [] rest = rest
meet (l ∷ ls) [] = l ∷ ls
meet (l ∷ ls) (m ∷ rest) = l ∷ meet ls rest

pub matches_self : (kind : Kind) (ls : List String) → matches kind ls ls ≡ true
unfolding matches no_labels
matches_self domain [] = refl
matches_self full [] = refl
matches_self domain (l ∷ ls) = ground (arith, eq_iff l l, matches_self domain ls)
matches_self full (l ∷ ls) = ground (arith, eq_iff l l, matches_self full ls)

meet-nil : (ls : List String) → meet ls [] ≡ ls
unfolding meet
meet-nil [] = refl
meet-nil (l ∷ ls) = refl

overlap-meet :
    (kind other : Kind) (ls rest : List String)
    → overlap kind other ls rest ≡ true
    → (matches kind ls (meet ls rest) ≡ true) × (matches other rest (meet ls rest) ≡ true)
unfolding overlap matches meet
overlap-meet domain other [] rest h = (refl, matches_self other rest)
overlap-meet full domain [] rest h = ground arith
overlap-meet full full [] [] h = (refl, refl)
overlap-meet full full [] (m ∷ rest) h = ground arith
overlap-meet kind other (l ∷ ls) [] h = ground arith
overlap-meet kind domain (l ∷ ls) (m ∷ []) h =
    ground (arith, eq_iff l m, eq_iff l l, eq_iff m l, meet-nil ls, matches_self kind ls)
overlap-meet kind domain (l ∷ ls) (m ∷ n ∷ rest) h =
    ground (arith, eq_iff l m, eq_iff l l, eq_iff m l, overlap-meet kind domain ls (n ∷ rest))
overlap-meet kind full (l ∷ ls) (m ∷ rest) h =
    ground (arith, eq_iff l m, eq_iff l l, eq_iff m l, overlap-meet kind full ls rest)

-- A host that both match shows that they overlap, or that the second has no labels left.
meet-overlap :
    (kind other : Kind) (ls rest host : List String)
    → matches kind ls host ≡ true
    → matches other rest host ≡ true
    → ((not (is_full other) && no_labels rest) || overlap kind other ls rest) ≡ true
unfolding overlap matches
meet-overlap domain other [] rest host h k = ground arith
meet-overlap full domain [] (m ∷ rest) [] h k = ground arith
meet-overlap full domain [] [] host h k = ground arith
meet-overlap full domain [] (m ∷ rest) (x ∷ host) h k = ground arith
meet-overlap full full [] [] host h k = ground arith
meet-overlap full full [] (m ∷ rest) [] h k = ground arith
meet-overlap full full [] (m ∷ rest) (x ∷ host) h k = ground arith
meet-overlap kind domain (l ∷ ls) [] host h k = ground arith
meet-overlap kind full (l ∷ ls) [] [] h k = ground arith
meet-overlap kind full (l ∷ ls) [] (x ∷ host) h k = ground arith
meet-overlap kind other (l ∷ ls) (m ∷ rest) [] h k = ground arith
meet-overlap kind other (l ∷ ls) (m ∷ rest) (x ∷ host) h k =
    ground (arith, eq_iff l m, eq_iff l x, eq_iff m x, meet-overlap kind other ls rest host)

-- `matches` decides the same hosts as `overlap`: two rules with labels overlap exactly if there is a
-- host that both match.
pub overlap-matches :
    (kind other : Kind) (ls rest : List String)
    → no_labels rest ≡ false
    → (overlap kind other ls rest ≡ true)
      ↔ ((host : List String) × (matches kind ls host ≡ true) × (matches other rest host ≡ true))
overlap-matches kind other ls rest n = (
  λ h. let (a, b) = overlap-meet kind other ls rest h in (meet ls rest, a, b),
  λ s. ground (arith, meet-overlap kind other ls rest s.0 s.1 s.2, n),
)
