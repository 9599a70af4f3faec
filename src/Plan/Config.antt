-- ===== src/Plan/Config.antt =====
-- `_validate_config` and `config_fingerprint`; `digest` is the SHA-256 of a canonical value's text.
use bypass_keenetic.Prelude.{
  Bool, true, false, ◌&&◌, not, Option, none, some, String, ◌==◌, if◌then◌else◌, List, [], ◌∷◌,
}
use bypass_keenetic.Prelude.Text.{strip}
use bypass_keenetic.KeyPool.Catalog.{mem}
use bypass_keenetic.Plan.Json.{
  Value, text, arr, obj, Entries, no_entry, entry, Pairs, json_value, canonical, get_field,
}

-- The text of a pair, if it is a text that is not blank.
unfoldable pub text_field : String → Pairs → Option String
text_field k fs = elim (get_field k fs) [
  | none ↦ none
  | some (text t) ↦ (if strip t == "" then none else some t)
  | some _ ↦ none
]

-- The loop over the entries of a section, with the tags seen.
unfoldable pub valid_entries : List String → Entries → Bool
valid_entries tags no_entry = true
valid_entries tags (entry (obj fs) rest) = elim (text_field "tag" fs) [
  | none ↦ false
  | some tag ↦ elim (text_field "protocol" fs) [
    | none ↦ false
    | some protocol ↦ (not (mem tag tags) && valid_entries (tag ∷ tags) rest)
  ]
]
valid_entries tags (entry _ rest) = false

unfoldable pub no_entries : Entries → Bool
no_entries no_entry = true
no_entries (entry v vs) = false

unfoldable pub list_field : String → Pairs → Option Entries
list_field k fs = elim (get_field k fs) [ some (arr vs) ↦ some vs | _ ↦ none ]

unfoldable pub dict_field : String → Pairs → Option Pairs
dict_field k fs = elim (get_field k fs) [ some (obj gs) ↦ some gs | _ ↦ none ]

unfoldable pub valid_section : Bool → String → Pairs → Bool
valid_section may_be_empty section fs = elim (list_field section fs) [
  | none ↦ false
  | some vs ↦ (if no_entries vs then may_be_empty else valid_entries [] vs)
]

unfoldable pub all_dicts : Entries → Bool
all_dicts no_entry = true
all_dicts (entry (obj fs) rest) = all_dicts rest
all_dicts (entry _ rest) = false

-- `routing.get(section, [])` is a list of dicts.
unfoldable pub valid_rules : String → Pairs → Bool
valid_rules section fs = elim (get_field section fs) [
  | none ↦ true
  | some (arr vs) ↦ all_dicts vs
  | some _ ↦ false
]

unfoldable pub valid_routing : Pairs → Bool
valid_routing fs = elim (dict_field "routing" fs) [
  | none ↦ false
  | some routing ↦ valid_rules "rules" routing && valid_rules "balancers" routing
]

-- `_validate_config` of a dict with these fields; `false` is a `ValueError`.
unfoldable pub validate_config : Value → Bool
validate_config (obj fs) =
    json_value (obj fs)
    && (valid_section true "inbounds" fs
        && (valid_section false "outbounds" fs && valid_routing fs))
validate_config _ = false

module _ (digest : Value → String) where
  unfoldable pub config_fingerprint : Value → Option String
  config_fingerprint config =
      if validate_config config then some (digest (canonical config)) else none
