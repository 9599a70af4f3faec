-- ===== src/Owner/Sole.antt =====
-- An owner is taken from the lists exactly if one list leads all others.
use bypass_keenetic.Prelude.{
  ℕ, zero, suc, ◌≤◌, ◌<◌, Bool, true, false, Option, none, some, List, [], ◌∷◌, String, ◌==◌,
  if◌then◌else◌, ◌=ℕ◌, length, All, ◌≡◌, ◌⊎◌, refl, arith, eq_iff, Bool-cases, Option-cases, inl,
  inr, ap, ◌∙◌, subst,
}
use bypass_keenetic.Prelude.Text.{strip}
use bypass_keenetic.Prelude.Dict
use bypass_keenetic.Prelude.Dict.{Dict}
use bypass_keenetic.Switch.Letters.{lower}
use bypass_keenetic.KeyPool.Catalog.{mem}
use bypass_keenetic.Screening.Entries.{has}
use bypass_keenetic.Screening.Dictionaries.{distinct}
use bypass_keenetic.Owner.Entries.{Source, service_route_entries}
use bypass_keenetic.Owner.Resolve.{
  Coverage, Owner, complete, partial, route_files, route_protocols, normalized_entries,
  read_last_owner, store_last_owner, matched, coverage_of, with_count, with_positive_count,
  best_count, only, fall_back, choose, resolve_youtube_route_owner, route_entries,
}
use bypass_keenetic.Owner.Lead.{
  share, LeadsAll, leads_all, Leads, only-with_count, bounded-coverage_of, partial-Leads,
  bounded-best_count, positive_count, matched-share,
}

-- The lists with this count, and the best count, where every list but that of `p` has a smaller share.
abbrev Fewer : String → ℕ → List String → Dict (List String) → Dict String → Type 0
Fewer p n expected lists files = All (λ x. (x.0 == p) ≡ false → share expected lists x.1 < n) files

without_leader :
    (p : String) (n : ℕ) (expected : List String) (lists : Dict (List String)) (files : Dict String)
    → has p files ≡ false
    → Fewer p n expected lists files
    → (with_count n (coverage_of expected lists files) ≡ [])
      × (best_count (coverage_of expected lists files) ≤ n)
unfolding with_count best_count coverage_of has
without_leader p n expected lists [] h a = (refl, omega arith)
without_leader p n expected lists ((q, f) ∷ files) h (l, a) =
    let (none_there, small) = without_leader p n expected lists files (ground arith) a in
    let less = l (ground arith) in
    let same = matched-share expected lists f in
    (ground (arith, none_there, less, same), ground (arith, small, less, same))

with_leader :
    (p filename : String) (expected : List String) (lists : Dict (List String))
    (files : Dict String)
    → distinct files ≡ true
    → Dict.get p files ≡ some filename
    → Fewer p (share expected lists filename) expected lists files
    → (with_count (share expected lists filename) (coverage_of expected lists files) ≡ p ∷ [])
      × (best_count (coverage_of expected lists files) ≡ share expected lists filename)
unfolding with_count best_count coverage_of distinct Dict.get
with_leader p filename expected lists [] d g a = ground arith
with_leader p filename expected lists ((q, f) ∷ files) d g (l, a) = elim (Bool-cases (q == p)) [
  | inl same ↦
      (let at = (eq_iff q p).0 same in
        let file : f ≡ filename = ground arith in
        let n = share expected lists filename in
        let here : matched expected (route_entries f lists) ≡ n =
          matched-share expected lists f ∙ ap (share expected lists) file in
        let (none_there, small) =
          without_leader p n expected lists files
            (subst (λ x. has x files ≡ false) at (ground arith)) a in
        (ground (arith, here, none_there, at), ground (arith, here, small)))
  | inr other ↦
      (let (rest, best) =
          with_leader p filename expected lists files (ground arith) (ground arith) a in
        let less = l other in
        let same = matched-share expected lists f in
        (ground (arith, rest, less, same), ground (arith, best, less, same)))
]

positive :
    (n : ℕ) (coverage : Coverage) → 1 ≤ n → with_positive_count n coverage ≡ with_count n coverage
positive zero coverage h = absurd (omega (arith, h))
positive (suc n) coverage h = positive_count n coverage

-- A list that leads is the only one with a positive best count.
led_by :
    (p : String) (expected : List String) (lists : Dict (List String)) (files : Dict String)
    → distinct files ≡ true
    → LeadsAll expected lists files p
    → only (
        with_positive_count
          (best_count (coverage_of expected lists files))
          (coverage_of expected lists files))
      ≡ some p
unfolding only
led_by p expected lists files d (f, g, one, a) =
    let cov = coverage_of expected lists files in
    let (listed, best) = with_leader p f expected lists files d g a in
    ap (λ n. only (with_positive_count n cov)) best
    ∙ (ap only (positive (share expected lists f) cov one) ∙ ap only listed)

route_files-distinct : distinct route_files ≡ true
unfolding distinct has
route_files-distinct = refl

not_led :
    (p : String) (expected : List String) (lists : Dict (List String))
    → LeadsAll expected lists route_files p
    → only (
        with_positive_count
          (best_count (coverage_of expected lists route_files))
          (coverage_of expected lists route_files))
      ≡ none
    → ⊥
not_led p expected lists l e =
    let found = led_by p expected lists route_files route_files-distinct l in ground (arith, found)

nothing_shared :
    (p : String) (expected : List String) (lists : Dict (List String))
    → length expected ≡ 0
    → LeadsAll expected lists route_files p
    → ⊥
nothing_shared p [] lists e (f, g, one, a) = omega (arith, one)
nothing_shared p (x ∷ expected) lists e l = omega (arith, e)

each_read : All (λ p. read_last_owner (some p) ≡ p) route_protocols
unfolding read_last_owner lower strip mem
each_read = (refl, (refl, (refl, (refl, (refl, (refl, tt))))))

All-mem : (P : String → Type 0) (x : String) (xs : List String) → All P xs → mem x xs ≡ true → P x
unfolding mem
All-mem P x [] a m = absurd (ground arith)
All-mem P x (y ∷ xs) (h, a) m = elim (Bool-cases (y == x)) [
  | inl same ↦ subst P ((eq_iff y x).0 same) h
  | inr other ↦ All-mem P x xs a (ground arith)
]

route_protocol :
    (p filename : String) → Dict.get p route_files ≡ some filename → mem p route_protocols ≡ true
unfolding Dict.get mem
route_protocol p filename g = ground arith

-- The list of the owner leads all others; the owner is stored if the state file can be written, and is read
-- back as it was stored. Or no list leads, nothing is stored, and the owner is the one stored last, or none.
abbrev pub Justified :
    Bool → List String → Dict (List String) → Option String → Option String × Owner → Type 0
Justified writable expected lists state outcome =
    (LeadsAll expected lists route_files outcome.1.protocol
      × (outcome.0 ≡ (if writable then some outcome.1.protocol else state))
      × (read_last_owner (some outcome.1.protocol) ≡ outcome.1.protocol))
    ⊎ (((p : String) → LeadsAll expected lists route_files p → ⊥)
        × (outcome.0 ≡ state)
        × (outcome.1.protocol ≡ read_last_owner state))

fall_back-protocol : (best : ℕ) (previous : String) → (fall_back best previous).protocol ≡ previous
unfolding fall_back
fall_back-protocol best previous = ground (arith, eq_iff previous "")

stored :
    (writable : Bool) (p : String) (state : Option String)
    → mem p route_protocols ≡ true
    → store_last_owner writable p state ≡ (if writable then some p else state)
unfolding store_last_owner
stored writable p state m = ground arith

-- What the code does with an owner that leads.
taken-Justified :
    (writable : Bool) (expected : List String) (lists : Dict (List String)) (state : Option String)
    (owner : Owner)
    → Leads owner.protocol (coverage_of expected lists route_files)
    → Justified writable expected lists state
        (store_last_owner writable owner.protocol state, owner)
taken-Justified writable expected lists state owner l =
    let (f, g, one, fewer) =
      leads_all owner.protocol expected lists route_files route_files-distinct l in
    let known = route_protocol owner.protocol f g in
    inl (
      (f, g, one, fewer),
      stored writable owner.protocol state known,
      All-mem (λ p. read_last_owner (some p) ≡ p) owner.protocol route_protocols each_read known,
    )

choose-Justified :
    (writable : Bool) (expected : List String) (lists : Dict (List String)) (state : Option String)
    → 1 ≤ length expected
    → Justified writable expected lists state
        (choose writable (length expected) (coverage_of expected lists route_files) state)
unfolding choose
choose-Justified writable expected lists state h =
    let n = length expected in
    let cov = coverage_of expected lists route_files in
    let b = bounded-coverage_of expected lists route_files in
    elim (Option-cases (only (with_count n cov))) [
      | inr (p, e) ↦
          rw (e, choose)
            (taken-Justified writable expected lists state
              (record { protocol = p; confidence = complete }) (n, h, only-with_count p n cov e b))
      | inl e ↦ elim (Option-cases (only (with_positive_count (best_count cov) cov))) [
        | inr (p, f) ↦
            rw (e, f, choose)
              (taken-Justified writable expected lists state
                (record { protocol = p; confidence = partial })
                (partial-Leads p (best_count cov) cov f (bounded-best_count cov)))
        | inl f ↦
            rw (e, f, choose)
              (inr (
                (λ p l. not_led p expected lists l f),
                refl,
                fall_back-protocol (best_count cov) (read_last_owner state),
              ))
      ]
    ]

-- `resolve_youtube_route_owner`: if one list has at least one of the service's entries and more of them than
-- the list of every other protocol, it names that protocol and, if the state file can be written, stores it, in
-- a form that is read back as the same; otherwise it stores nothing and names the last owner that was
-- stored, or none.
pub resolve_youtube_route_owner-Justified :
    (global_excludes : List String) (youtube : Source) (writable : Bool)
    (lists : Dict (List String)) (state : Option String)
    → Justified writable
        (normalized_entries (service_route_entries global_excludes youtube))
        lists
        state
        (resolve_youtube_route_owner global_excludes youtube writable lists state)
unfolding resolve_youtube_route_owner
resolve_youtube_route_owner-Justified global_excludes youtube writable lists state =
    let expected = normalized_entries (service_route_entries global_excludes youtube) in
    elim (Bool-cases (length expected =ℕ 0)) [
      | inl e ↦ rw e (inr ((λ p l. nothing_shared p expected lists (ground arith) l), refl, refl))
      | inr e ↦ rw e (choose-Justified writable expected lists state (ground arith))
    ]
