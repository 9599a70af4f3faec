-- ===== src/Owner/Entries.antt =====
-- The entries of a service, without those that it leaves to others. The table of services is not
-- modelled: a `Source` is one row of it, and `global_excludes` the entries that every service leaves.
use bypass_keenetic.Prelude.{none, some, List, [], ◌∷◌, ◌++◌, String, ◌==◌, if◌then◌else◌}
use bypass_keenetic.Prelude.Text.{strip}
use bypass_keenetic.Switch.Letters.{lower}
use bypass_keenetic.Routes.Strings.{after_prefix, lstrip_chars, rstrip_chars}
use bypass_keenetic.KeyPool.Catalog.{mem}
use bypass_keenetic.KeyPool.Keys.{dedupe_key_list}

-- The loop over the prefixes: each is removed where it stands.
unfoldable pub without_prefixes : List String → String → String
without_prefixes [] entry = entry
without_prefixes (p ∷ prefixes) entry =
    without_prefixes prefixes (elim (after_prefix p entry) [ none ↦ entry | some rest ↦ rest ])

unfoldable pub normalize_route_entry : String → String
normalize_route_entry value = rstrip_chars "/" (
    lstrip_chars "/" (
      lstrip_chars "*." (
        without_prefixes ("full:" ∷ "domain:" ∷ "domain-suffix," ∷ "domain," ∷ "host-suffix," ∷ [])
          (lower (strip value)))))

pub record Source : Type 0 where
  pub entries : List String
  pub route_state_exclude : List String
  pub route_global_exclude_allow : List String

-- `{normalize_route_entry(value) for value in values if str(value or '').strip()}`
unfoldable pub normalized_set : List String → List String
normalized_set [] = []
normalized_set (v ∷ values) =
    let rest = normalized_set values in
    if strip v == "" then rest else normalize_route_entry v ∷ rest

-- `[value for value in values if normalize_route_entry(value) not in excluded]`
unfoldable pub not_in : List String → List String → List String
not_in excluded [] = []
not_in excluded (v ∷ values) =
    let rest = not_in excluded values in
    if mem (normalize_route_entry v) excluded then rest else v ∷ rest

unfoldable pub scoped_entries : List String → Source → List String
scoped_entries global_excludes source =
    let allowed = normalized_set source.route_global_exclude_allow in
    let excluded = normalized_set (source.route_state_exclude ++ not_in allowed global_excludes) in
    not_in excluded (dedupe_key_list source.entries)

-- `scoped_entries or entries`
unfoldable pub or_entries : List String → List String → List String
or_entries [] entries = entries
or_entries (v ∷ values) entries = v ∷ values

unfoldable pub service_route_entries : List String → Source → List String
service_route_entries global_excludes source =
    or_entries (scoped_entries global_excludes source) (dedupe_key_list source.entries)
