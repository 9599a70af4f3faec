-- ===== src/Routes/Refinement.antt =====
-- `compile_cross_route_domain_overrides` and the hosts that its rules match.
use bypass_keenetic.Prelude.{
  ℕ, suc, true, not, ◌&&◌, ◌||◌, Option, some, List, [], ◌∷◌, String, ◌==◌, ◌≡◌, ◌≢◌, ◌↔◌, refl,
  arith, eq_iff, Bool-cases, inl, inr, All, subst,
}
use bypass_keenetic.Prelude.Dict
use bypass_keenetic.Prelude.Dict.{Dict}
use bypass_keenetic.KeyPool.Catalog.{protocol_display_order, mem}
use bypass_keenetic.Routes.Entries.{Rule, compile_route_entries}
use bypass_keenetic.Routes.Masks.{bit}
use bypass_keenetic.Routes.Trie.{empty_node}
use bypass_keenetic.Routes.Overrides.{
  Candidate, tagged, grouped, candidates_from, candidates, compile_cross_route_domain_overrides,
}
use bypass_keenetic.Routes.Hosts.{matches, overlap-matches}
use bypass_keenetic.Routes.Ownership.{
  Owned, candidate_labels, share, contested, uncontested, reading, nodes_there,
}
use bypass_keenetic.Routes.Places.{Has, position, labels_some, each_listed, All-join}

tagged-Owned :
    (p : String) (i : ℕ) (rules : List Rule)
    → position p protocol_display_order ≡ i
    → mem p protocol_display_order ≡ true
    → All Owned (tagged p (bit i) rules)
unfolding tagged
tagged-Owned p i [] h m = tt
tagged-Owned p i (r ∷ rules) h m = ((rw h, m), tagged-Owned p i rules h m)

-- A candidate that is contested, and a rule of another protocol with a host that both match.
abbrev pub Rival : Candidate → List Candidate → Type 0
Rival c cs =
    (d : Candidate) × (host : List String) × Has d cs
    × (d.protocol ≢ c.protocol)
    × (matches c.rule.kind (candidate_labels c) host ≡ true)
    × (matches d.rule.kind (candidate_labels d) host ≡ true)

opponent : (c : Candidate) (cs : List Candidate) → contested c cs ≡ true → Rival c cs
unfolding contested
opponent c [] h = ground arith
opponent c (d ∷ cs) h = elim (Bool-cases (not (d.protocol == c.protocol) && share c d)) [
  | inl e ↦
      (let (host, a, b) =
          (overlap-matches c.rule.kind d.rule.kind (candidate_labels c) (candidate_labels d)
              (labels_some d.rule.host)).0
            (ground arith) in
        (d, host, inl refl, (λ p. ground (arith, eq_iff d.protocol c.protocol)), a, b))
  | inr e ↦ (let (x, host, m, n, a, b) = opponent c cs (ground arith) in (x, host, inr m, n, a, b))
]

rival_contests :
    (c d : Candidate) (cs : List Candidate) (host : List String)
    → Has d cs
    → d.protocol ≢ c.protocol
    → matches c.rule.kind (candidate_labels c) host ≡ true
    → matches d.rule.kind (candidate_labels d) host ≡ true
    → contested c cs ≡ true
unfolding contested
rival_contests c d [] host h n a b = elim h [ ]
rival_contests c d (x ∷ cs) host (inl e) n a b =
    let s : share c d ≡ true =
      (overlap-matches c.rule.kind d.rule.kind (candidate_labels c) (candidate_labels d)
          (labels_some d.rule.host)).1
        (host, a, b) in
    subst (λ y. ((not (y.protocol == c.protocol) && share c y) || contested c cs) ≡ true) e
      (ground (arith, s, eq_iff d.protocol c.protocol))
rival_contests c d (x ∷ cs) host (inr h) n a b = ground (arith, rival_contests c d cs host h n a b)

-- A candidate is contested exactly if there is a rule of another protocol and a host that both rules
-- match.
pub contested-Rival : (c : Candidate) (cs : List Candidate) → (contested c cs ≡ true) ↔ Rival c cs
contested-Rival c cs = (opponent c cs, λ r. rival_contests c r.0 cs r.1 r.2 r.3 r.4 r.5)

-- The protocols stand at the places from `i` on.
abbrev Placed : ℕ → List String → Type 0
Placed i [] = Unit
Placed i (p ∷ protocols) =
    (position p protocol_display_order ≡ i)
    × (mem p protocol_display_order ≡ true)
    × Placed (suc i) protocols

catalogue_order : Placed 0 protocol_display_order
unfolding position mem
catalogue_order =
    (refl, refl, (refl, refl, (refl, refl, (refl, refl, (refl, refl, (refl, refl, tt))))))

module _ (parse_network : String → Option String) (url_host : String → String) where
  candidates_from-Owned :
      (i : ℕ) (protocols : List String) (source : Dict (List String))
      → Placed i protocols
      → All Owned (candidates_from parse_network url_host i protocols source)
  unfolding candidates_from
  candidates_from-Owned i [] source h = tt
  candidates_from-Owned i (p ∷ protocols) source (h, m, rest) =
      let rules =
        (compile_route_entries parse_network url_host (Dict.get_or p [] source)).domains in
      All-join Owned (tagged p (bit i) rules)
        (candidates_from parse_network url_host (suc i) protocols source)
        (tagged-Owned p i rules h m) (candidates_from-Owned (suc i) protocols source rest)

  pub candidates-Owned :
      (source : Dict (List String)) → All Owned (candidates parse_network url_host source)
  unfolding candidates
  candidates-Owned source = candidates_from-Owned 0 protocol_display_order source catalogue_order

  -- `compile_cross_route_domain_overrides` never raises `KeyError`, and returns, for each protocol of the
  -- catalogue that has any, exactly those of its rules, sorted, that no rule of another protocol
  -- overlaps: the trie and its masks find what a comparison of every pair of rules finds.
  pub compile_cross_route_domain_overrides_lem :
      (source : Dict (List String))
      → compile_cross_route_domain_overrides parse_network url_host source
        ≡ some (
            grouped protocol_display_order (
              uncontested
                (candidates parse_network url_host source)
                (candidates parse_network url_host source)))
  unfolding compile_cross_route_domain_overrides
  compile_cross_route_domain_overrides_lem source =
      let cs = candidates parse_network url_host source in
      let o = candidates-Owned source in
      ground (arith, reading cs cs o (nodes_there cs empty_node) o (each_listed cs))
