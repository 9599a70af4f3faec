-- ===== src/Owner/Tests.antt =====
-- YouTube in the list of one protocol and, in part, of another.
use bypass_keenetic.Prelude.{true, none, some, List, [], ◌∷◌, String, ◌≡◌, refl}
use bypass_keenetic.Prelude.Dict.{Dict}
use bypass_keenetic.Owner.Entries.{Source, service_route_entries}
use bypass_keenetic.Owner.Resolve.{
  choose, only, with_count, with_positive_count, best_count, normalized_entries,
  resolve_youtube_route_owner,
}
use bypass_keenetic.Owner.Sole.{Justified, resolve_youtube_route_owner-Justified}

abbrev youtube : Source
youtube = record {
  entries = "youtube.com" ∷ "*.ytimg.com" ∷ [];
  route_state_exclude = [];
  route_global_exclude_allow = [];
}

abbrev lists : Dict (List String)
lists =
    ("vless.txt", "domain:youtube.com" ∷ "ytimg.com" ∷ []) ∷ ("trojan.txt", "youtube.com" ∷ []) ∷ []

resolve_youtube_route_owner-Justified_example :
    Justified true
      (normalized_entries (service_route_entries [] youtube))
      lists
      none
      (resolve_youtube_route_owner [] youtube true lists none)
resolve_youtube_route_owner-Justified_example =
    resolve_youtube_route_owner-Justified [] youtube true lists none

-- Two lists with as many entries: no owner is stored.
tie : (choose true 3 ((2, "vless") ∷ (2, "trojan") ∷ []) (some "vmess")).0 ≡ some "vmess"
unfolding choose only with_count with_positive_count best_count
tie = refl
