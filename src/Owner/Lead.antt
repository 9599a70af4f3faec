-- ===== src/Owner/Lead.antt =====
-- An owner is taken from the lists only if its list leads all others.
use bypass_keenetic.Prelude.{
  ℕ, zero, suc, ◌≤◌, max, Bool, true, false, ◌&&◌, ◌||◌, some, List, [], ◌∷◌, String, ◌==◌, ltb,
  leb, ◌=ℕ◌, length, keep, All, ◌<◌, subst, ◌≡◌, refl, arith, eq_iff, Bool-cases, inl, inr, ap, ◌∙◌,
  sym,
}
use bypass_keenetic.Prelude.Dict
use bypass_keenetic.Prelude.Dict.{Dict}
use bypass_keenetic.KeyPool.Catalog.{mem}
use bypass_keenetic.Screening.Dictionaries.{distinct, has-get}
use bypass_keenetic.Owner.Resolve.{
  Coverage, matched, coverage_of, with_count, with_positive_count, best_count, only, route_entries,
}

-- Every other protocol has fewer entries than this count.
unfoldable pub ahead : String → ℕ → Coverage → Bool
ahead p n [] = true
ahead p n ((m, q) ∷ coverage) = (q == p || ltb m n) && ahead p n coverage

-- The protocol has this count.
unfoldable pub counted : String → ℕ → Coverage → Bool
counted p n [] = false
counted p n ((m, q) ∷ coverage) = (q == p && m =ℕ n) || counted p n coverage

-- No count is above the bound.
unfoldable pub bounded : ℕ → Coverage → Bool
bounded n [] = true
bounded n ((m, q) ∷ coverage) = leb m n && bounded n coverage

none_left :
    (p : String) (n : ℕ) (coverage : Coverage)
    → with_count n coverage ≡ []
    → bounded n coverage ≡ true
    → ahead p n coverage ≡ true
unfolding with_count bounded ahead
none_left p n [] h b = refl
none_left p n ((m, q) ∷ coverage) h b = ground (arith, none_left p n coverage)

only_cons : (p q : String) (rest : List String) → only (q ∷ rest) ≡ some p → (q ≡ p) × (rest ≡ [])
unfolding only
only_cons p q [] h = (ground arith, refl)
only_cons p q (r ∷ rest) h = ground arith

pub only-with_count :
    (p : String) (n : ℕ) (coverage : Coverage)
    → only (with_count n coverage) ≡ some p
    → bounded n coverage ≡ true
    → (ahead p n coverage && counted p n coverage) ≡ true
unfolding with_count bounded ahead counted
only-with_count p n [] h b = unfold only in ground arith
only-with_count p n ((m, q) ∷ coverage) h b = elim (Bool-cases (m =ℕ n)) [
  | inl e ↦
      (let (same, nil) = only_cons p q (with_count n coverage) (ground (arith, h, e)) in
        ground (arith, eq_iff q p, none_left p n coverage nil))
  | inr e ↦ ground (arith, only-with_count p n coverage)
]

pub positive_count :
    (n : ℕ) (coverage : Coverage)
    → with_positive_count (suc n) coverage ≡ with_count (suc n) coverage
unfolding with_positive_count with_count
positive_count n [] = refl
positive_count n ((m, q) ∷ coverage) = ground (arith, positive_count n coverage)

no_positive_count : (coverage : Coverage) → with_positive_count 0 coverage ≡ []
unfolding with_positive_count
no_positive_count [] = refl
no_positive_count ((m, q) ∷ coverage) = ground (arith, no_positive_count coverage)

bounded_more :
    (n k : ℕ) (coverage : Coverage) → n ≤ k → bounded n coverage ≡ true → bounded k coverage ≡ true
unfolding bounded
bounded_more n k [] h b = refl
bounded_more n k ((m, q) ∷ coverage) h b = ground (arith, bounded_more n k coverage)

pub bounded-best_count : (coverage : Coverage) → bounded (best_count coverage) coverage ≡ true
unfolding bounded best_count
bounded-best_count [] = refl
bounded-best_count ((m, q) ∷ coverage) = ground (
  arith,
  bounded-best_count coverage,
  bounded_more (best_count coverage) (max m (best_count coverage)) coverage (omega arith),
)

matched_bound : (expected entries : List String) → matched expected entries ≤ length expected
unfolding matched
matched_bound [] entries = omega arith
matched_bound (e ∷ expected) entries = ground (arith, matched_bound expected entries)

pub bounded-coverage_of :
    (expected : List String) (lists : Dict (List String)) (files : Dict String)
    → bounded (length expected) (coverage_of expected lists files) ≡ true
unfolding bounded coverage_of
bounded-coverage_of expected lists [] = refl
bounded-coverage_of expected lists ((p, filename) ∷ files) = ground (
  arith,
  matched_bound expected (route_entries filename lists),
  bounded-coverage_of expected lists files,
)

-- The protocol has at least one entry and more than every other.
abbrev pub Leads : String → Coverage → Type 0
Leads p coverage = (n : ℕ) × (1 ≤ n) × ((ahead p n coverage && counted p n coverage) ≡ true)

pub partial-Leads :
    (p : String) (n : ℕ) (coverage : Coverage)
    → only (with_positive_count n coverage) ≡ some p
    → bounded n coverage ≡ true
    → Leads p coverage
partial-Leads p zero coverage h b = unfold only in ground (arith, h, no_positive_count coverage)
partial-Leads p (suc n) coverage h b = (
  suc n,
  omega arith,
  only-with_count p (suc n) coverage (ap only (sym (positive_count n coverage)) ∙ h) b,
)

-- The entries of the service that stand in the list of this file.
abbrev pub share : List String → Dict (List String) → String → ℕ
share expected lists filename = length (keep (λ e. mem e (route_entries filename lists)) expected)

-- The list of the protocol has at least one of the entries, and that of every other protocol fewer of them.
abbrev pub LeadsAll : List String → Dict (List String) → Dict String → String → Type 0
LeadsAll expected lists files p =
    (filename : String) × (Dict.get p files ≡ some filename)
    × (1 ≤ share expected lists filename)
    × All (λ x. (x.0 == p) ≡ false → share expected lists x.1 < share expected lists filename) files

pub matched-share :
    (expected : List String) (lists : Dict (List String)) (filename : String)
    → matched expected (route_entries filename lists) ≡ share expected lists filename
unfolding matched
matched-share [] lists filename = refl
matched-share (e ∷ expected) lists filename = ground (arith, matched-share expected lists filename)

others_fewer :
    (p : String) (n : ℕ) (expected : List String) (lists : Dict (List String)) (files : Dict String)
    → ahead p n (coverage_of expected lists files) ≡ true
    → All (λ x. (x.0 == p) ≡ false → share expected lists x.1 < n) files
unfolding ahead coverage_of
others_fewer p n expected lists [] h = tt
others_fewer p n expected lists ((q, f) ∷ files) h = (
  (λ d. ground (arith, matched-share expected lists f)),
  others_fewer p n expected lists files (ground arith),
)

counted-get :
    (p : String) (n : ℕ) (expected : List String) (lists : Dict (List String)) (files : Dict String)
    → distinct files ≡ true
    → counted p n (coverage_of expected lists files) ≡ true
    → (filename : String) × (Dict.get p files ≡ some filename) × (share expected lists filename ≡ n)
unfolding counted coverage_of distinct Dict.get
counted-get p n expected lists [] d h = ground arith
counted-get p n expected lists ((q, f) ∷ files) d h = elim (Bool-cases (q == p)) [
  | inl same ↦ elim (Bool-cases (matched expected (route_entries f lists) =ℕ n)) [
    | inl e ↦ (f, ground arith, ground (arith, matched-share expected lists f))
    | inr e ↦
        (let (g, found, s) = counted-get p n expected lists files (ground arith) (ground arith) in
          absurd (ground (arith, has-get p g files found, eq_iff q p)))
  ]
  | inr other ↦
      (let (g, found, s) = counted-get p n expected lists files (ground arith) (ground arith) in
        (g, ground arith, s))
]

pub leads_all :
    (p : String) (expected : List String) (lists : Dict (List String)) (files : Dict String)
    → distinct files ≡ true
    → Leads p (coverage_of expected lists files)
    → LeadsAll expected lists files p
leads_all p expected lists files d (n, one, h) =
    let (f, found, s) = counted-get p n expected lists files d (ground (arith, h)) in
    (
      f,
      found,
      omega (arith, one, s),
      subst (λ k. All (λ x. (x.0 == p) ≡ false → share expected lists x.1 < k) files) (sym s)
          (others_fewer p n expected lists files (ground (arith, h))),
    )
