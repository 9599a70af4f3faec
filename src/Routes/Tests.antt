-- ===== src/Routes/Tests.antt =====
-- Two lists that overlap, and the theorems about them.
use bypass_keenetic.Prelude.{true, ◌&&◌, Option, none, some, List, [], ◌∷◌, String, ◌≡◌, ◌↔◌}
use bypass_keenetic.Prelude.Dict
use bypass_keenetic.Prelude.Dict.{Dict}
use bypass_keenetic.KeyPool.Catalog.{protocol_display_order, mem}
use bypass_keenetic.Routes.Entries.{Rule, domain, mem_rule, compile_route_entries}
use bypass_keenetic.Routes.Overrides.{grouped, candidates, compile_cross_route_domain_overrides}
use bypass_keenetic.Routes.Ownership.{uncontested}
use bypass_keenetic.Routes.Refinement.{compile_cross_route_domain_overrides_lem}
use bypass_keenetic.Routes.Outcome.{Recovered, overrides-Recovered}
use bypass_keenetic.Routes.Services.{
  route_domains, only_owner, compile_service_domain_overrides, compile_service_domain_overrides_lem,
}

-- No address stands in the lists used here, and no URL.
abbrev no_network : String → Option String
no_network s = none

abbrev no_host : String → String
no_host s = ""

-- The host of the second list lies below the domain of the first.
abbrev lists : Dict (List String)
lists =
    ("vless", "*.example.com" ∷ "youtube.com # video" ∷ [])
    ∷ ("vmess", "full:www.example.com" ∷ "telegram.org" ∷ [])
    ∷ []

compile_cross_route_domain_overrides_example :
    compile_cross_route_domain_overrides no_network no_host lists
    ≡ some (
        grouped protocol_display_order
          (uncontested (candidates no_network no_host lists) (candidates no_network no_host lists)))
compile_cross_route_domain_overrides_example =
    compile_cross_route_domain_overrides_lem no_network no_host lists

overrides-Recovered_example :
    (result : Dict (List Rule)) × (compile_cross_route_domain_overrides no_network no_host lists
      ≡ some result)
    × ((mem_rule (record { kind = domain; host = "example.com" }) (Dict.get_or "vless" [] result)
          ≡ true)
        ↔ Recovered "vless"
            (record { kind = domain; host = "example.com" })
            (candidates no_network no_host lists))
overrides-Recovered_example =
    overrides-Recovered no_network no_host lists "vless"
      (record { kind = domain; host = "example.com" })

compile_service_domain_overrides_example :
    mem_rule
      (record { kind = domain; host = "youtube.com" })
      (Dict.get_or "vless" []
        (compile_service_domain_overrides no_network no_host lists ("youtube.com" ∷ [])))
    ≡ (mem "vless" protocol_display_order
        && (mem_rule
              (record { kind = domain; host = "youtube.com" })
              (compile_route_entries no_network no_host ("youtube.com" ∷ [])).domains
            && only_owner "vless"
                (record { kind = domain; host = "youtube.com" })
                protocol_display_order
                (route_domains no_network no_host protocol_display_order lists)))
compile_service_domain_overrides_example =
    compile_service_domain_overrides_lem no_network no_host lists ("youtube.com" ∷ []) "vless"
      (record { kind = domain; host = "youtube.com" })
