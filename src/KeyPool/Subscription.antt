-- ===== src/KeyPool/Subscription.antt =====
-- The keys that a subscription gives, its placeholders for errors, and the keys in use. `split_url`
-- is the scheme, in lower case, and the fragment of `urlsplit`, `none` where it raises; `vmess_name`
-- is the name in a payload of vmess (Base64 of JSON), `none` where that raises.
use Prim.Native.Char.{code}
use Prim.Native.String as Str
use bypass_keenetic.Prelude.{
  ℕ, Bool, true, false, not, ◌&&◌, ◌||◌, Option, none, some, List, [], ◌∷◌, ◌++◌, String, ◌==◌,
  if◌then◌else◌, length, ◌-◌, ◌+◌,
}
use bypass_keenetic.Prelude.Text.{strip, lstrip, is_space}
use bypass_keenetic.Prelude.Dict
use bypass_keenetic.Prelude.Dict.{Dict}
use bypass_keenetic.Routes.Strings.{before, after_prefix}
use bypass_keenetic.KeyPool.Catalog.{protocol_display_order, mem, protocol_for_scheme}
use bypass_keenetic.KeyPool.Keys.{dedupe_key_list}
use bypass_keenetic.KeyPool.Pools.{Pools, pool, normalize_key_pools}
use bypass_keenetic.KeyPool.Repair.{no_pools}

abbrev pub subscription_error_labels : List String
subscription_error_labels =
    "app not supported" ∷ "application not supported" ∷ "enable hwid" ∷ "hwid required"
    ∷ "incompatible app" ∷ []

-- One space in front of a text that is not empty and has none.
unfoldable pub space_before : String → String
space_before Str.[] = ""
space_before (Str.◌∷◌ c s) = if is_space (code c) then Str.◌∷◌ c s else Str.◌∷◌ " " (Str.◌∷◌ c s)

unfoldable pub one_space : String → String
one_space Str.[] = ""
one_space (Str.◌∷◌ c s) =
    let rest = one_space s in if is_space (code c) then space_before rest else Str.◌∷◌ c rest

-- `' '.join(text.split())`
unfoldable pub join_words : String → String
join_words s = one_space (lstrip s)

-- `text.split('://', 1)[1]`, `none` where there is no such part.
unfoldable pub after_mark : String → String → Option String
after_mark mark Str.[] = after_prefix mark ""
after_mark mark (Str.◌∷◌ c s) = elim (after_prefix mark (Str.◌∷◌ c s)) [
  | some rest ↦ some rest
  | none ↦ after_mark mark s
]

-- One round of `ensure_current_keys_in_pools`: the list of a protocol with its key in use.
unfoldable pub with_current : List String → String → List String
with_current keys key = if not (key == "") && not (mem key keys) then keys ++ key ∷ [] else keys

unfoldable pub ensure_over : List String → Pools → Dict String → Pools
ensure_over [] pools current_keys = []
ensure_over (p ∷ protos) pools current_keys =
    (p, with_current (dedupe_key_list (pool pools p)) (strip (Dict.get_or p "" current_keys)))
    ∷ ensure_over protos pools current_keys

-- `keys != original_keys` for a list and its extension.
unfoldable pub any_changed : List String → Pools → Dict String → Bool
any_changed [] pools current_keys = false
any_changed (p ∷ protos) pools current_keys =
    let keys = dedupe_key_list (pool pools p) in
    let key = strip (Dict.get_or p "" current_keys) in
    (not (key == "") && not (mem key keys)) || any_changed protos pools current_keys

unfoldable pub ensure_current_keys_in_pools : Pools → Dict String → Pools × Bool
ensure_current_keys_in_pools pools current_keys =
    let ps = normalize_key_pools pools in
    (
      ensure_over protocol_display_order ps current_keys,
      any_changed protocol_display_order ps current_keys,
    )

module _ (split_url : String → Option (String × String)) (vmess_name : String → Option String)
    (unquote casefold : String → String) where
  unfoldable pub normalized_subscription_label : String → String
  normalized_subscription_label value = casefold (join_words (unquote value))

  -- `none` is the `ValueError` of `urlsplit`.
  unfoldable pub subscription_key_label : String → Option String
  subscription_key_label raw = elim (split_url (strip raw)) [
    | none ↦ none
    | some (scheme, fragment) ↦
        (if not (scheme == "vmess") then some fragment else elim (after_mark "://" (strip raw)) [
          | none ↦ some fragment
          | some payload ↦ elim (vmess_name (before "#" payload)) [
            | none ↦ some fragment
            | some name ↦ some name
          ]
        ])
  ]

  unfoldable pub subscription_key_is_error_placeholder : String → Option Bool
  subscription_key_is_error_placeholder key = elim (subscription_key_label key) [
    | none ↦ none
    | some label ↦ some (mem (normalized_subscription_label label) subscription_error_labels)
  ]

  unfoldable pub clean_of_placeholders : List String → Option (List String)
  clean_of_placeholders [] = some []
  clean_of_placeholders (k ∷ keys) = elim (subscription_key_is_error_placeholder k) [
    | none ↦ none
    | some bad ↦ elim (clean_of_placeholders keys) [
      | none ↦ none
      | some kept ↦ some (if bad then kept else k ∷ kept)
    ]
  ]

  unfoldable pub remove_subscription_error_placeholders : List String → Option (List String × ℕ)
  remove_subscription_error_placeholders keys =
      elim (clean_of_placeholders (dedupe_key_list keys)) [
        | none ↦ none
        | some cleaned ↦ some (cleaned, length (dedupe_key_list keys) - length cleaned)
      ]

  unfoldable pub remove_over : List String → Pools → Option (Pools × ℕ)
  remove_over [] pools = some ([], 0)
  remove_over (p ∷ protos) pools = elim (remove_subscription_error_placeholders (pool pools p)) [
    | none ↦ none
    | some (cleaned, removed) ↦ elim (remove_over protos pools) [
      | none ↦ none
      | some (rest, more) ↦ some ((p, cleaned) ∷ rest, removed + more)
    ]
  ]

  unfoldable pub remove_subscription_error_placeholders_from_pools : Pools → Option (Pools × ℕ)
  remove_subscription_error_placeholders_from_pools pools =
      remove_over protocol_display_order (normalize_key_pools pools)

  -- One round of the loop of `classify_subscription_keys`; `none` is a `ValueError`.
  unfoldable pub classify_line : String → Pools → Option Pools
  classify_line raw result =
      let key = strip raw in
      if key == "" then some result else elim (split_url key) [
        | none ↦ none
        | some (scheme, fragment) ↦
            (let proto = protocol_for_scheme scheme "" in
              if proto == ""
              then some result
              else elim (subscription_key_is_error_placeholder key) [
                | none ↦ none
                | some true ↦ none
                | some false ↦ some (Dict.put proto (pool result proto ++ key ∷ []) result)
              ])
      ]

  unfoldable pub classify_lines : List String → Pools → Option Pools
  classify_lines [] result = some result
  classify_lines (raw ∷ lines) result = elim (classify_line raw result) [
    | none ↦ none
    | some next ↦ classify_lines lines next
  ]

  -- From the lines of the decoded text, or of the text itself where it is no Base64.
  unfoldable pub classify_subscription_keys : List String → Option Pools
  classify_subscription_keys lines = classify_lines lines (no_pools protocol_display_order)
