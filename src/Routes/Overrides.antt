-- ===== src/Routes/Overrides.antt =====
-- `compile_cross_route_domain_overrides`.
use Prim.Native.String.{compare, ◌++◌ as append}
use Prim.Native.Nat.{Ordering}
use bypass_keenetic.Prelude.{
  ℕ, suc, Bool, true, false, Option, none, some, List, [], ◌∷◌, ◌++◌, String, ◌==◌, if◌then◌else◌,
}
use bypass_keenetic.Prelude.Dict
use bypass_keenetic.Prelude.Dict.{Dict}
use bypass_keenetic.KeyPool.Catalog.{protocol_display_order}
use bypass_keenetic.Routes.Strings.{split_on}
use bypass_keenetic.Routes.Entries.{Kind, domain, full, Rule, compile_route_entries}
use bypass_keenetic.Routes.Masks.{Mask, bit, mask_eq}
use bypass_keenetic.Routes.Trie.{Node, empty_node, insert, overlapping}

-- `tuple(reversed(parts))`
unfoldable pub reverse_onto : List String → List String → List String
reverse_onto acc [] = acc
reverse_onto acc (l ∷ ls) = reverse_onto (l ∷ acc) ls

unfoldable pub labels_of : String → List String
labels_of host = reverse_onto [] (split_on "." host)

-- An element of `candidates`; its labels are those of the rule's host.
pub record Candidate : Type 0 where
  pub protocol : String
  pub owner : Mask
  pub rule : Rule

-- The candidates of one protocol.
unfoldable pub tagged : String → Mask → List Rule → List Candidate
tagged protocol owner [] = []
tagged protocol owner (r ∷ rules) =
    record { protocol = protocol; owner = owner; rule = r } ∷ tagged protocol owner rules

-- The filling loop over the candidates.
unfoldable pub fill : List Candidate → Node → Node
fill [] root = root
fill (c ∷ candidates) root =
    fill candidates (insert c.owner c.rule.kind (labels_of c.rule.host) root)

-- The reading loop: the candidates that own all that overlaps them. `none` is a `KeyError`.
unfoldable pub unambiguous : Node → List Candidate → Option (List Candidate)
unambiguous root [] = some []
unambiguous root (c ∷ candidates) = elim (overlapping c.rule.kind (labels_of c.rule.host) root []) [
  | none ↦ none
  | some m ↦ elim (unambiguous root candidates) [
    | none ↦ none
    | some kept ↦ some (if mask_eq m c.owner then c ∷ kept else kept)
  ]
]

-- `grouped[protocol]`
unfoldable pub rules_for : String → List Candidate → List Rule
rules_for protocol [] = []
rules_for protocol (c ∷ kept) =
    let rest = rules_for protocol kept in if c.protocol == protocol then c.rule ∷ rest else rest

-- The text of a rule.
unfoldable pub kind_text : Kind → String
kind_text domain = "domain:"
kind_text full = "full:"

unfoldable pub token : Rule → String
token r = append (kind_text r.kind) r.host

unfoldable pub text_le : String → String → Bool
text_le a b = elim (compare a b) [ Ordering.gt ↦ false | _ ↦ true ]

-- `sorted(domains)`
unfoldable pub insert_sorted : Rule → List Rule → List Rule
insert_sorted r [] = r ∷ []
insert_sorted r (q ∷ rules) =
    let rest = insert_sorted r rules in
    if text_le (token r) (token q) then r ∷ q ∷ rules else q ∷ rest

unfoldable pub sorted : List Rule → List Rule
sorted [] = []
sorted (r ∷ rules) = insert_sorted r (sorted rules)

unfoldable pub is_empty : List Rule → Bool
is_empty [] = true
is_empty (r ∷ rules) = false

-- The dict that is returned: the protocols that have rules, each with its rules.
unfoldable pub grouped : List String → List Candidate → Dict (List Rule)
unfolding rules_for sorted is_empty
grouped [] kept = []
grouped (p ∷ protocols) kept =
    let rest = grouped protocols kept in
    let rules = rules_for p kept in if is_empty rules then rest else (p, sorted rules) ∷ rest

module _ (parse_network : String → Option String) (url_host : String → String) where
  -- The loop over `enumerate(SUPPORTED_PROTOCOLS)`, from an index on.
  unfoldable pub candidates_from : ℕ → List String → Dict (List String) → List Candidate
  unfolding tagged compile_route_entries
  candidates_from i [] source = []
  candidates_from i (p ∷ protocols) source =
      tagged p (bit i)
        (compile_route_entries parse_network url_host (Dict.get_or p [] source)).domains
      ++ candidates_from (suc i) protocols source

  unfoldable pub candidates : Dict (List String) → List Candidate
  unfolding candidates_from
  candidates source = candidates_from 0 protocol_display_order source

  unfoldable pub compile_cross_route_domain_overrides :
      Dict (List String) → Option (Dict (List Rule))
  unfolding candidates fill unambiguous grouped
  compile_cross_route_domain_overrides source =
      let cs = candidates source in
      elim (unambiguous (fill cs empty_node) cs) [
        | none ↦ none
        | some kept ↦ some (grouped protocol_display_order kept)
      ]
