-- ===== src/Routes/Outcome.antt =====
-- What stands in the dict that `compile_cross_route_domain_overrides` returns.
use bypass_keenetic.Prelude.{
  true, false, ◌&&◌, Option, some, List, [], ◌∷◌, String, ◌==◌, ◌≡◌, ◌↔◌, refl, ◌⊎◌, if◌then◌else◌,
  arith, eq_iff, Bool-cases, inl, inr, All, ap, subst, sym,
}
use bypass_keenetic.Prelude.Dict
use bypass_keenetic.Prelude.Dict.{Dict}
use bypass_keenetic.KeyPool.Catalog.{protocol_display_order, mem}
use bypass_keenetic.Routes.Entries.{Kind, domain, full, same_kind, Rule, mem_rule}
use bypass_keenetic.Routes.Overrides.{
  Candidate, insert_sorted, sorted, rules_for, is_empty, grouped, candidates,
  compile_cross_route_domain_overrides,
}
use bypass_keenetic.Routes.Ownership.{Owned, contested, uncontested}
use bypass_keenetic.Routes.Places.{Has}
use bypass_keenetic.Routes.Refinement.{
  Rival, contested-Rival, candidates-Owned, compile_cross_route_domain_overrides_lem,
}
use bypass_keenetic.Routes.Services.{get_or-cons, no_entry, no_rules, same_kind_sound}

mem-insert_sorted :
    (r q : Rule) (rules : List Rule) → mem_rule r (insert_sorted q rules) ≡ mem_rule r (q ∷ rules)
unfolding mem_rule insert_sorted
mem-insert_sorted r q [] = refl
mem-insert_sorted r q (s ∷ rules) = ground (arith, mem-insert_sorted r q rules)

mem-sorted : (r : Rule) (rules : List Rule) → mem_rule r (sorted rules) ≡ mem_rule r rules
unfolding mem_rule sorted
mem-sorted r [] = refl
mem-sorted r (q ∷ rules) = ground (arith, mem-insert_sorted r q (sorted rules), mem-sorted r rules)

sorted_empty : (rules : List Rule) → is_empty rules ≡ true → sorted rules ≡ []
unfolding is_empty sorted
sorted_empty [] h = refl
sorted_empty (r ∷ rules) h = ground arith

get_or-grouped :
    (p : String) (protocols : List String) (kept : List Candidate)
    → Dict.get_or p [] (grouped protocols kept)
      ≡ (if mem p protocols then sorted (rules_for p kept) else [])
unfolding grouped mem
get_or-grouped p [] kept = no_entry p
get_or-grouped p (q ∷ protocols) kept = ground (
  arith,
  eq_iff q p,
  get_or-grouped p protocols kept,
  sorted_empty (rules_for q kept),
  get_or-cons p q (sorted (rules_for q kept)) (grouped protocols kept),
)

mem_rule-equal :
    (r q : Rule) (rules : List Rule)
    → mem_rule r (q ∷ rules) ≡ true
    → (q ≡ r) ⊎ (mem_rule r rules ≡ true)
unfolding mem_rule
mem_rule-equal r q rules h = elim (Bool-cases (same_kind q.kind r.kind && q.host == r.host)) [
  | inl e ↦ inl (ground (arith, same_kind_sound q.kind r.kind, eq_iff q.host r.host))
  | inr e ↦ inr (ground arith)
]

same_kind_refl : (k : Kind) → same_kind k k ≡ true
unfolding same_kind
same_kind_refl domain = refl
same_kind_refl full = refl

mem_rule-head : (r : Rule) (rules : List Rule) → mem_rule r (r ∷ rules) ≡ true
unfolding mem_rule
mem_rule-head r rules = ground (arith, eq_iff r.host r.host, same_kind_refl r.kind)

mem_rule-tail :
    (r q : Rule) (rules : List Rule) → mem_rule r rules ≡ true → mem_rule r (q ∷ rules) ≡ true
unfolding mem_rule
mem_rule-tail r q rules h = ground arith

-- A candidate of the protocol with the rule that no candidate of another protocol contests.
abbrev pub Unrivalled : String → Rule → List Candidate → List Candidate → Type 0
Unrivalled p r cs all =
    (c : Candidate) × Has c cs × (c.protocol ≡ p) × (c.rule ≡ r) × (contested c all ≡ false)

later :
    (p : String) (r : Rule) (d : Candidate) (cs all : List Candidate)
    → Unrivalled p r cs all
    → Unrivalled p r (d ∷ cs) all
later p r d cs all (c, h, a, b, n) = (c, inr h, a, b, n)

kept-Unrivalled :
    (p : String) (r : Rule) (cs all : List Candidate)
    → mem_rule r (rules_for p (uncontested cs all)) ≡ true
    → Unrivalled p r cs all
unfolding rules_for uncontested
kept-Unrivalled p r [] all h = ground (arith, no_rules r)
kept-Unrivalled p r (c ∷ cs) all h = elim (Bool-cases (contested c all)) [
  | inl e ↦ later p r c cs all (kept-Unrivalled p r cs all (ground arith))
  | inr e ↦ elim (Bool-cases (c.protocol == p)) [
    | inl o ↦ elim (mem_rule-equal r c.rule (rules_for p (uncontested cs all)) (ground arith)) [
      | inl same ↦ (c, inl refl, ground (arith, eq_iff c.protocol p), same, e)
      | inr m ↦ later p r c cs all (kept-Unrivalled p r cs all m)
    ]
    | inr o ↦ later p r c cs all (kept-Unrivalled p r cs all (ground arith))
  ]
]

Unrivalled-kept :
    (p : String) (r : Rule) (c : Candidate) (cs all : List Candidate)
    → Has c cs
    → c.protocol ≡ p
    → c.rule ≡ r
    → contested c all ≡ false
    → mem_rule r (rules_for p (uncontested cs all)) ≡ true
unfolding rules_for uncontested
Unrivalled-kept p r c [] all h a b n = elim h [ ]
Unrivalled-kept p r c (d ∷ cs) all (inl e) a b n = ground (
  arith,
  eq_iff d.protocol p,
  ap Candidate.protocol e,
  ap Candidate.rule e,
  ap (λ x. contested x all) e,
  mem_rule-head r (rules_for p (uncontested cs all)),
)
Unrivalled-kept p r c (d ∷ cs) all (inr h) a b n = ground (
  arith,
  Unrivalled-kept p r c cs all h a b n,
  mem_rule-tail r d.rule (rules_for p (uncontested cs all)),
)

Has-Owned : (c : Candidate) (cs : List Candidate) → All Owned cs → Has c cs → Owned c
Has-Owned c [] os h = elim h [ ]
Has-Owned c (d ∷ cs) (o, os) (inl e) = subst Owned (sym e) o
Has-Owned c (d ∷ cs) (o, os) (inr h) = Has-Owned c cs os h

-- A rule of the protocol's list, and no rule of another protocol has a host in common with it.
abbrev pub Recovered : String → Rule → List Candidate → Type 0
Recovered p r cs = (c : Candidate) × Has c cs × (c.protocol ≡ p) × (c.rule ≡ r) × ¬ Rival c cs

Unrivalled-Recovered :
    (p : String) (r : Rule) (cs : List Candidate) → Unrivalled p r cs cs → Recovered p r cs
Unrivalled-Recovered p r cs (c, h, a, b, n) =
    (c, h, a, b, λ v. ground (arith, n, (contested-Rival c cs).1 v))

Recovered-uncontested :
    (p : String) (r : Rule) (cs : List Candidate)
    → Recovered p r cs
    → mem_rule r (rules_for p (uncontested cs cs)) ≡ true
Recovered-uncontested p r cs (c, h, a, b, n) = elim (Bool-cases (contested c cs)) [
  | inl e ↦ elim (n ((contested-Rival c cs).0 e)) [ ]
  | inr e ↦ Unrivalled-kept p r c cs cs h a b e
]

Recovered-placed :
    (p : String) (r : Rule) (cs : List Candidate)
    → All Owned cs
    → Recovered p r cs
    → mem p protocol_display_order ≡ true
Recovered-placed p r cs os (c, h, a, b, n) =
    subst (λ q. mem q protocol_display_order ≡ true) a (Has-Owned c cs os h).1

mem-grouped :
    (p : String) (r : Rule) (cs : List Candidate)
    → All Owned cs
    → (mem_rule r (Dict.get_or p [] (grouped protocol_display_order (uncontested cs cs))) ≡ true)
      ↔ Recovered p r cs
mem-grouped p r cs os = (
  λ h. Unrivalled-Recovered p r cs (
      kept-Unrivalled p r cs cs (
        ground (
          arith,
          get_or-grouped p protocol_display_order (uncontested cs cs),
          mem-sorted r (rules_for p (uncontested cs cs)),
          no_rules r,
        ))),
  λ v. ground (
    arith,
    get_or-grouped p protocol_display_order (uncontested cs cs),
    mem-sorted r (rules_for p (uncontested cs cs)),
    Recovered-uncontested p r cs v,
    Recovered-placed p r cs os v,
  ),
)

module _ (parse_network : String → Option String) (url_host : String → String) where
  -- `compile_cross_route_domain_overrides` returns, and gives a protocol exactly those rules of its own
  -- list that share no host with a rule of another protocol: no host is matched by both.
  pub overrides-Recovered :
      (source : Dict (List String)) (p : String) (r : Rule)
      → (result : Dict (List Rule)) × (compile_cross_route_domain_overrides parse_network url_host
            source
          ≡ some result)
        × ((mem_rule r (Dict.get_or p [] result) ≡ true)
            ↔ Recovered p r (candidates parse_network url_host source))
  overrides-Recovered source p r =
      let cs = candidates parse_network url_host source in
      (
        grouped protocol_display_order (uncontested cs cs),
        compile_cross_route_domain_overrides_lem parse_network url_host source,
        mem-grouped p r cs (candidates-Owned parse_network url_host source),
      )
