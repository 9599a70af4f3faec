-- ===== src/Routes/Services.antt =====
-- `compile_service_domain_overrides`, its alias, and `compile_protocol_policies`: the rules of a service
-- go to the one protocol whose list has them.
use bypass_keenetic.Prelude.{
  Bool, true, false, not, ◌&&◌, Option, List, [], ◌∷◌, String, ◌==◌, if◌then◌else◌, ◌≡◌, refl,
  arith, eq_iff, Bool-cases, inl, inr, ap,
}
use bypass_keenetic.Prelude.Dict
use bypass_keenetic.Prelude.Dict.{Dict}
use bypass_keenetic.KeyPool.Catalog.{protocol_display_order, mem}
use bypass_keenetic.Routes.Entries.{
  Kind, domain, full, same_kind, Rule, Policy, mem_rule, compile_route_entries,
}
use bypass_keenetic.Routes.Overrides.{is_empty}

-- `STRICT_TRANSPARENT_IP_PORTS`
abbrev pub strict_transparent_ip_ports : Dict String
strict_transparent_ip_ports =
    ("vmess", "80,443,5222")
    ∷ ("vless", "80,443,5222")
    ∷ ("vless2", "80,443")
    ∷ ("hysteria2", "80,443,5222")
    ∷ []

-- A policy with the ports of `ip_ports`, where the protocol has them.
abbrev pub PortPolicy : Type 0
PortPolicy = Policy × Option String

-- `[protocol for protocol in protocols if rule in route_domains[protocol]]`
unfoldable pub owners : Rule → List String → Dict (List Rule) → List String
unfolding mem_rule
owners r [] routes = []
owners r (p ∷ protocols) routes =
    let rest = owners r protocols routes in
    if mem_rule r (Dict.get_or p [] routes) then p ∷ rest else rest

-- `len(owners) == 1`, and the owner is the protocol.
unfoldable pub is_sole : String → List String → Bool
is_sole p [] = false
is_sole p (q ∷ []) = q == p
is_sole p (q ∷ r ∷ qs) = false

-- `grouped[protocol]`; `supported` is the list of all protocols.
unfoldable pub service_rules : List String → String → List Rule → Dict (List Rule) → List Rule
unfolding owners is_sole
service_rules supported p [] routes = []
service_rules supported p (r ∷ rules) routes =
    let rest = service_rules supported p rules routes in
    if is_sole p (owners r supported routes) then r ∷ rest else rest

unfoldable pub group_services :
    List String → List String → List Rule → Dict (List Rule) → Dict (List Rule)
unfolding service_rules is_empty
group_services supported [] rules routes = []
group_services supported (p ∷ protocols) rules routes =
    let rest = group_services supported protocols rules routes in
    let mine = service_rules supported p rules routes in
    if is_empty mine then rest else (p, mine) ∷ rest

module _ (parse_network : String → Option String) (url_host : String → String) where
  -- `route_domains`
  unfoldable pub route_domains : List String → Dict (List String) → Dict (List Rule)
  unfolding compile_route_entries
  route_domains [] source = []
  route_domains (p ∷ protocols) source =
      (p, (compile_route_entries parse_network url_host (Dict.get_or p [] source)).domains)
      ∷ route_domains protocols source

  unfoldable pub compile_service_domain_overrides :
      Dict (List String) → List String → Dict (List Rule)
  unfolding group_services route_domains
  compile_service_domain_overrides source service_entries =
      let rules = (compile_route_entries parse_network url_host service_entries).domains in
      if is_empty rules
      then []
      else group_services protocol_display_order protocol_display_order rules
          (route_domains protocol_display_order source)

  -- The loop over the requested protocols, which `normalize_protocol_set` gives.
  unfoldable pub compile_protocol_policies : List String → Dict (List String) → Dict PortPolicy
  unfolding compile_route_entries
  compile_protocol_policies [] source = []
  compile_protocol_policies (p ∷ requested) source =
      (
        p,
        (
          compile_route_entries parse_network url_host (Dict.get_or p [] source),
          Dict.get p strict_transparent_ip_ports,
        ),
      )
      ∷ compile_protocol_policies requested source

-- No protocol of the list has the rule.
unfoldable unowned : Rule → List String → Dict (List Rule) → Bool
unowned r [] routes = true
unowned r (p ∷ protocols) routes =
    not (mem_rule r (Dict.get_or p [] routes)) && unowned r protocols routes

-- The protocol is in the list and has the rule, and no other protocol of the list has it.
unfoldable pub only_owner : String → Rule → List String → Dict (List Rule) → Bool
unfolding unowned
only_owner p r [] routes = false
only_owner p r (q ∷ protocols) routes =
    let rest = only_owner p r protocols routes in
    if mem_rule r (Dict.get_or q [] routes) then q == p && unowned r protocols routes else rest

owners-unowned :
    (r : Rule) (protocols : List String) (routes : Dict (List Rule)) (p : String)
    → is_sole p (p ∷ owners r protocols routes) ≡ unowned r protocols routes
unfolding owners is_sole unowned
owners-unowned r [] routes p = ground (arith, eq_iff p p)
owners-unowned r (q ∷ protocols) routes p = ground (arith, owners-unowned r protocols routes p)

is_sole-cons :
    (p q : String) (qs : List String) → is_sole p (q ∷ qs) ≡ (q == p && is_sole q (q ∷ qs))
unfolding is_sole
is_sole-cons p q [] = ground (arith, eq_iff q q)
is_sole-cons p q (r ∷ qs) = ground arith

sole-only :
    (p : String) (r : Rule) (protocols : List String) (routes : Dict (List Rule))
    → is_sole p (owners r protocols routes) ≡ only_owner p r protocols routes
unfolding owners only_owner
sole-only p r [] routes = unfold is_sole in refl
sole-only p r (q ∷ protocols) routes = ground (
  arith,
  is_sole-cons p q (owners r protocols routes),
  owners-unowned r protocols routes q,
  sole-only p r protocols routes,
)

pub same_kind_sound : (a b : Kind) → same_kind a b ≡ true → a ≡ b
unfolding same_kind
same_kind_sound domain domain h = refl
same_kind_sound domain full h = ground arith
same_kind_sound full domain h = ground arith
same_kind_sound full full h = refl

mem-service_rules :
    (supported : List String) (p : String) (r : Rule) (rules : List Rule)
    (routes : Dict (List Rule))
    → mem_rule r (service_rules supported p rules routes)
      ≡ (mem_rule r rules && is_sole p (owners r supported routes))
unfolding mem_rule service_rules
mem-service_rules supported p r [] routes = refl
mem-service_rules supported p r (q ∷ rules) routes =
    elim (Bool-cases (same_kind q.kind r.kind && q.host == r.host)) [
      | inl e ↦
          (let same : q ≡ r = ground (arith, same_kind_sound q.kind r.kind, eq_iff q.host r.host) in
            ground (
              arith,
              ap (λ x. is_sole p (owners x supported routes)) same,
              mem-service_rules supported p r rules routes,
            ))
      | inr e ↦ ground (arith, mem-service_rules supported p r rules routes)
    ]

pub get_or-cons :
    (p q : String) (mine : List Rule) (d : Dict (List Rule))
    → Dict.get_or p [] ((q, mine) ∷ d) ≡ (if q == p then mine else Dict.get_or p [] d)
unfolding Dict.get_or
get_or-cons p q mine d = ground arith

pub empty_rules : (rules : List Rule) → is_empty rules ≡ true → rules ≡ []
unfolding is_empty
empty_rules [] h = refl
empty_rules (r ∷ rules) h = ground arith

get_or-group_services :
    (supported : List String) (p : String) (protocols : List String) (rules : List Rule)
    (routes : Dict (List Rule))
    → Dict.get_or p [] (group_services supported protocols rules routes)
      ≡ (if mem p protocols then service_rules supported p rules routes else [])
unfolding group_services mem
get_or-group_services supported p [] rules routes = unfold Dict.get_or in refl
get_or-group_services supported p (q ∷ protocols) rules routes = ground (
  arith,
  eq_iff q p,
  get_or-group_services supported p protocols rules routes,
  empty_rules (service_rules supported q rules routes),
  get_or-cons p q (service_rules supported q rules routes)
      (group_services supported protocols rules routes),
)

pub no_rules : (r : Rule) → mem_rule r [] ≡ false
unfolding mem_rule
no_rules r = refl

pub no_entry : (p : String) → Dict.get_or {V = List Rule} p [] [] ≡ []
unfolding Dict.get_or
no_entry p = refl

module _ (parse_network : String → Option String) (url_host : String → String) where
  -- `compile_service_domain_overrides` gives a protocol exactly those rules of the service that the
  -- protocol's own list has and the list of no other protocol has, and only to protocols of the
  -- catalogue.
  pub compile_service_domain_overrides_lem :
      (source : Dict (List String)) (service_entries : List String) (p : String) (r : Rule)
      → mem_rule r (
          Dict.get_or p []
            (compile_service_domain_overrides parse_network url_host source service_entries))
        ≡ (mem p protocol_display_order
            && (mem_rule r (compile_route_entries parse_network url_host service_entries).domains
                && only_owner p r protocol_display_order
                    (route_domains parse_network url_host protocol_display_order source)))
  unfolding compile_service_domain_overrides
  compile_service_domain_overrides_lem source service_entries p r =
      let rules = (compile_route_entries parse_network url_host service_entries).domains in
      let routes = route_domains parse_network url_host protocol_display_order source in
      let all = protocol_display_order in
      ground (
        arith,
        get_or-group_services all p all rules routes,
        empty_rules rules,
        no_rules r,
        mem-service_rules all p r rules routes,
        sole-only p r all routes,
        no_entry p,
      )
