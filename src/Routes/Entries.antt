-- ===== src/Routes/Entries.antt =====
-- `compile_route_entries`. A rule's text is its kind, a colon and its host; the kinds hold no colon, so
-- `split(':', 1)` gives the two again. `parse_network` is `str(ipaddress.ip_network(entry,
-- strict=False))`, `none` where that raises, and `url_host` is `urlparse(token).hostname or ''`.
-- An entry is a line, so it holds no line break.
use Prim.Native.Char.{Char}
use Prim.Native.String.{count}
use bypass_keenetic.Prelude.{
  Bool, true, false, not, ◌&&◌, ◌||◌, Option, none, some, List, [], ◌∷◌, ◌++◌, String, ◌==◌,
  if◌then◌else◌, leb,
}
use bypass_keenetic.Prelude.Text.{strip}
use bypass_keenetic.KeyPool.Catalog.{mem}
use bypass_keenetic.Switch.Letters.{lower}
use bypass_keenetic.Routes.Strings.{
  before, after_prefix, contains, has_char, lstrip_chars, rstrip_chars, split_on,
}

-- The kinds of rules, `domain:` and `full:`.
pub data Kind : Type 0 where
  domain full : Kind

unfoldable pub same_kind : Kind → Kind → Bool
same_kind domain domain = true
same_kind domain full = false
same_kind full domain = false
same_kind full full = true

pub record Rule : Type 0 where
  pub kind : Kind
  pub host : String

-- `_entry_value`
unfoldable pub entry_value : String → String
entry_value value = strip (before "#" value)

-- `.lstrip('*.+').strip('/')`
unfoldable pub bare : String → String
bare token = rstrip_chars "/" (lstrip_chars "/" (lstrip_chars "*.+" token))

-- `[a-z0-9](?:[a-z0-9-]{0,61}[a-z0-9])?`, and `[a-z0-9-]{2,63}`
unfoldable pub alphanumeric : Char → Bool
alphanumeric c = has_char c "abcdefghijklmnopqrstuvwxyz0123456789"

unfoldable pub all_label : String → Bool
unfolding alphanumeric
all_label String.[] = true
all_label (String.◌∷◌ c s) = (alphanumeric c || has_char c "-") && all_label s

unfoldable pub ends_well : String → Bool
unfolding alphanumeric
ends_well String.[] = false
ends_well (String.◌∷◌ c String.[]) = alphanumeric c
ends_well (String.◌∷◌ c (String.◌∷◌ d s)) = ends_well (String.◌∷◌ d s)

unfoldable pub is_label : String → Bool
unfolding all_label ends_well alphanumeric
is_label String.[] = false
is_label (String.◌∷◌ c s) =
    alphanumeric c
    && (all_label s && (ends_well (String.◌∷◌ c s) && leb (count (String.◌∷◌ c s)) 63))

unfoldable pub is_top : String → Bool
unfolding all_label
is_top s = all_label s && (leb 2 (count s) && leb (count s) 63)

-- One label and a dot at least, then the last label.
unfoldable pub are_labels : List String → Bool
unfolding is_label is_top
are_labels [] = false
are_labels (l ∷ []) = false
are_labels (l ∷ m ∷ []) = is_label l && is_top m
are_labels (l ∷ m ∷ n ∷ ls) = is_label l && are_labels (m ∷ n ∷ ls)

-- `_DOMAIN_RE.match`
unfoldable pub is_domain : String → Bool
unfolding are_labels split_on
is_domain s = leb (count s) 253 && are_labels (split_on "." s)

-- The loop over `_SUFFIX_PREFIXES`.
unfoldable pub after_suffix_prefix : List String → String → Option String
unfolding after_prefix
after_suffix_prefix [] token = none
after_suffix_prefix (p ∷ prefixes) token = elim (after_prefix p token) [
  | some rest ↦ some rest
  | none ↦ after_suffix_prefix prefixes token
]

abbrev pub suffix_prefixes : List String
suffix_prefixes = "domain:" ∷ "domain-suffix," ∷ "domain," ∷ "host-suffix," ∷ []

-- `x in seen`, for rules.
unfoldable pub mem_rule : Rule → List Rule → Bool
unfolding same_kind
mem_rule r [] = false
mem_rule r (q ∷ rules) = (same_kind q.kind r.kind && q.host == r.host) || mem_rule r rules

-- The rules and the addresses, each once and in the order of the entries.
pub record Policy : Type 0 where
  pub domains : List Rule
  pub ips : List String

unfoldable pub add_rule : Rule → Policy → Policy
unfolding is_domain mem_rule
add_rule r p =
    if not (is_domain r.host)
    then p
    else if mem_rule r p.domains
    then p
    else record p { domains = p.domains ++ r ∷ [] }

unfoldable pub add_address : String → Policy → Policy
add_address a p = if mem a p.ips then p else record p { ips = p.ips ++ a ∷ [] }

module _ (parse_network : String → Option String) (url_host : String → String) where
  -- `_domain_token`
  unfoldable pub domain_token : String → Rule
  unfolding contains after_suffix_prefix entry_value
  domain_token value =
      let token = rstrip_chars "." (lower (entry_value value)) in
      elim (after_prefix "full:" token) [
        | some rest ↦ record { kind = full; host = bare rest }
        | none ↦ elim (after_suffix_prefix suffix_prefixes token) [
          | some rest ↦ record { kind = domain; host = bare rest }
          | none ↦
              (if contains "://" token
                then record {
                  kind = domain;
                  host = bare (rstrip_chars "." (lower (url_host token)));
                }
                else record { kind = domain; host = bare token })
        ]
      ]

  -- One round of the loop.
  unfoldable pub add_entry : String → Policy → Policy
  unfolding domain_token add_rule add_address
  add_entry raw p =
      let entry = entry_value raw in
      if entry == "" then p else elim (parse_network entry) [
        | some address ↦
            (if address == "" then add_rule (domain_token entry) p else add_address address p)
        | none ↦ add_rule (domain_token entry) p
      ]

  unfoldable pub add_entries : List String → Policy → Policy
  unfolding add_entry
  add_entries [] p = p
  add_entries (e ∷ entries) p = add_entries entries (add_entry e p)

  unfoldable pub compile_route_entries : List String → Policy
  unfolding add_entries
  compile_route_entries entries = add_entries entries (record { domains = []; ips = [] })
