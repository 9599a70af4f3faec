-- ===== src/Owner/Resolve.antt =====
-- `resolve_youtube_route_owner`. The lists of the routes are the lines of their files, by the file's name;
-- a file that cannot be read is not there. The state file holds the text of its `protocol`, `none` where
-- it cannot be read. `writable` says whether the state file can be written.
use bypass_keenetic.Prelude.{
  ℕ, suc, max, Bool, ◌&&◌, Option, none, some, List, [], ◌∷◌, String, ◌==◌, if◌then◌else◌, ltb,
  ◌=ℕ◌, length,
}
use bypass_keenetic.Prelude.Text.{strip}
use bypass_keenetic.Prelude.Dict
use bypass_keenetic.Prelude.Dict.{Dict}
use bypass_keenetic.Switch.Letters.{lower}
use bypass_keenetic.KeyPool.Catalog.{mem}
use bypass_keenetic.Owner.Entries.{Source, normalize_route_entry, service_route_entries}

abbrev pub route_files : Dict String
route_files =
    ("shadowsocks", "shadowsocks.txt")
    ∷ ("vmess", "vmess.txt")
    ∷ ("vless", "vless.txt")
    ∷ ("vless2", "vless-2.txt")
    ∷ ("trojan", "trojan.txt")
    ∷ ("hysteria2", "hysteria2.txt")
    ∷ []

abbrev pub route_protocols : List String
route_protocols = "shadowsocks" ∷ "vmess" ∷ "vless" ∷ "vless2" ∷ "trojan" ∷ "hysteria2" ∷ []

-- The set of the normalized texts that are not empty, each once.
unfoldable pub normalized_entries : List String → List String
normalized_entries [] = []
normalized_entries (v ∷ values) =
    let rest = normalized_entries values in
    let entry = normalize_route_entry v in
    if entry == "" then rest else if mem entry rest then rest else entry ∷ rest

-- `_route_entries(path)`
unfoldable pub route_entries : String → Dict (List String) → List String
route_entries filename lists = normalized_entries (Dict.get_or filename [] lists)

unfoldable pub read_last_owner : Option String → String
read_last_owner none = ""
read_last_owner (some text) =
    let protocol = lower (strip text) in if mem protocol route_protocols then protocol else ""

unfoldable pub store_last_owner : Bool → String → Option String → Option String
store_last_owner writable protocol state =
    if mem protocol route_protocols && writable then some protocol else state

-- `len(expected & entries)`
unfoldable pub matched : List String → List String → ℕ
matched [] entries = 0
matched (e ∷ expected) entries =
    let rest = matched expected entries in if mem e entries then suc rest else rest

abbrev pub Coverage : Type 0
Coverage = List (ℕ × String)

unfoldable pub coverage_of : List String → Dict (List String) → Dict String → Coverage
coverage_of expected lists [] = []
coverage_of expected lists ((protocol, filename) ∷ files) =
    (matched expected (route_entries filename lists), protocol) ∷ coverage_of expected lists files

-- `[protocol for matched, protocol in coverage if matched == count]`
unfoldable pub with_count : ℕ → Coverage → List String
with_count n [] = []
with_count n ((m, protocol) ∷ coverage) =
    let rest = with_count n coverage in if m =ℕ n then protocol ∷ rest else rest

-- The same, with `and matched > 0`.
unfoldable pub with_positive_count : ℕ → Coverage → List String
with_positive_count n [] = []
with_positive_count n ((m, protocol) ∷ coverage) =
    let rest = with_positive_count n coverage in if m =ℕ n && ltb 0 m then protocol ∷ rest else rest

unfoldable pub best_count : Coverage → ℕ
best_count [] = 0
best_count ((m, protocol) ∷ coverage) = max m (best_count coverage)

-- The only element, if there is just one.
unfoldable pub only : List String → Option String
only [] = none
only (p ∷ []) = some p
only (p ∷ q ∷ ps) = none

pub data Confidence : Type 0 where
  complete partial last_confirmed ambiguous missing : Confidence

pub record Owner : Type 0 where
  pub protocol : String
  pub confidence : Confidence

-- What is returned without a sole best list.
unfoldable pub fall_back : ℕ → String → Owner
fall_back best previous =
    if previous == ""
    then record { protocol = ""; confidence = if best =ℕ 0 then missing else ambiguous }
    else record { protocol = previous; confidence = last_confirmed }

-- The state file after, and the owner.
unfoldable pub choose : Bool → ℕ → Coverage → Option String → Option String × Owner
choose writable count coverage state = elim (only (with_count count coverage)) [
  | some p ↦ (store_last_owner writable p state, record { protocol = p; confidence = complete })
  | none ↦ elim (only (with_positive_count (best_count coverage) coverage)) [
    | some p ↦ (store_last_owner writable p state, record { protocol = p; confidence = partial })
    | none ↦ (state, fall_back (best_count coverage) (read_last_owner state))
  ]
]

unfoldable pub resolve_youtube_route_owner :
    List String → Source → Bool → Dict (List String) → Option String → Option String × Owner
resolve_youtube_route_owner global_excludes youtube writable lists state =
    let expected = normalized_entries (service_route_entries global_excludes youtube) in
    if length expected =ℕ 0
    then (state, record { protocol = read_last_owner state; confidence = last_confirmed })
    else choose writable (length expected) (coverage_of expected lists route_files) state

-- The owner or the default.
unfoldable pub youtube_route_owner :
    List String
    → Source
    → Bool
    → Dict (List String)
    → String
    → Option String
    → Option String × String
youtube_route_owner global_excludes youtube writable lists default state =
    let (next, owner) = resolve_youtube_route_owner global_excludes youtube writable lists state in
    (next, if owner.protocol == "" then lower (strip default) else owner.protocol)
