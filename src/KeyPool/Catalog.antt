-- ===== src/KeyPool/Catalog.antt =====
-- app/protocol_catalog.py: the protocols, and the protocol of a key's scheme.
use bypass_keenetic.Prelude.{Bool, false, ◌||◌, List, [], ◌∷◌, String, ◌==◌, if◌then◌else◌}
use bypass_keenetic.Prelude.Dict
use bypass_keenetic.Prelude.Dict.{Dict}

abbrev pub protocol_display_order : List String
protocol_display_order = "vless" ∷ "vless2" ∷ "vmess" ∷ "trojan" ∷ "hysteria2" ∷ "shadowsocks" ∷ []

abbrev pub scheme_protocols : Dict String
scheme_protocols =
    ("ss", "shadowsocks")
    ∷ ("vmess", "vmess")
    ∷ ("trojan", "trojan")
    ∷ ("hysteria2", "hysteria2")
    ∷ ("hy2", "hysteria2")
    ∷ []

abbrev pub supported_key_schemes : List String
supported_key_schemes = "vless" ∷ "ss" ∷ "vmess" ∷ "trojan" ∷ "hysteria2" ∷ "hy2" ∷ []

-- `x in keys`
unfoldable pub mem : String → List String → Bool
mem x [] = false
mem x (k ∷ keys) = k == x || mem x keys

-- The scheme is in lower case and without white space, as `urlsplit` returns it.
unfoldable pub protocol_for_scheme : String → String → String
unfolding Dict.get_or
protocol_for_scheme scheme default =
    if scheme == "vless"
    then (if default == "vless" || default == "vless2" then default else "vless")
    else Dict.get_or scheme default scheme_protocols
