-- ===== src/Plan/Difference.antt =====
-- What a kind of change leaves as it is.
use bypass_keenetic.Prelude.{
  true, false, ◌&&◌, Option, none, some, String, ◌==◌, if◌then◌else◌, List, ◌≡◌, refl, arith,
  eq_iff, ap, sym, ◌∙◌, &&-true,
}
use bypass_keenetic.KeyPool.Catalog.{mem}
use bypass_keenetic.Plan.Json.{
  Value, null, foreign, flag, number, text, arr, obj, Entries, no_entry, entry, Pairs, no_pair,
  pair, key_le, insert_field, canonical, canonical_pairs, same, same_entries, same_pairs, same_bool,
  get_field, without_keys,
}
use bypass_keenetic.Plan.Config.{
  list_field, dict_field, validate_config, valid_section, valid_routing,
}
use bypass_keenetic.Plan.Change.{fields_of, outbounds, routing_of, differ}

mutual
  unfolding same same_bool

  pub same_sound : (v w : Value) → same v w ≡ true → v ≡ w
  same_sound null null h = refl
  same_sound foreign foreign h = refl
  same_sound (flag true) (flag true) h = refl
  same_sound (flag false) (flag false) h = refl
  same_sound (number a) (number b) h = ap number ((eq_iff a b).0 h)
  same_sound (text a) (text b) h = ap text ((eq_iff a b).0 h)
  same_sound (arr vs) (arr ws) h = ap arr (same_entries_sound vs ws h)
  same_sound (obj fs) (obj gs) h = ap obj (same_pairs_sound fs gs h)
  same_sound v w h = ground arith

  same_entries_sound : (vs ws : Entries) → same_entries vs ws ≡ true → vs ≡ ws
  same_entries_sound no_entry no_entry h = refl
  same_entries_sound (entry v vs) (entry w ws) h =
      let (a, b) = &&-true (same v w) (same_entries vs ws) h in
      λ i. entry (same_sound v w a i) (same_entries_sound vs ws b i)
  same_entries_sound vs ws h = ground arith

  same_pairs_sound : (fs gs : Pairs) → same_pairs fs gs ≡ true → fs ≡ gs
  same_pairs_sound no_pair no_pair h = refl
  same_pairs_sound (pair k v fs) (pair j w gs) h =
      let (e, rest) = &&-true (k == j) (same v w && same_pairs fs gs) h in
      let (a, b) = &&-true (same v w) (same_pairs fs gs) rest in
      λ i. pair ((eq_iff k j).0 e i) (same_sound v w a i) (same_pairs_sound fs gs b i)
  same_pairs_sound fs gs h = ground arith

-- The canonical value of a key.
abbrev pub value_at : String → Value → Option Value
value_at k config = get_field k (canonical_pairs (fields_of config))

get-insert_field :
    (k j : String) (v : Value) (fs : Pairs)
    → get_field k (insert_field j v fs) ≡ (if j == k then some v else get_field k fs)
unfolding get_field insert_field key_le
get-insert_field k j v no_pair = refl
get-insert_field k j v (pair i w fs) =
    ground (arith, eq_iff j k, eq_iff i k, eq_iff j i, get-insert_field k j v fs)

without_key :
    (k : String) (keys : List String) (fs : Pairs)
    → get_field k (without_keys keys fs) ≡ (if mem k keys then none else get_field k fs)
unfolding get_field without_keys
without_key k keys no_pair = ground arith
without_key k keys (pair j v fs) = ground (arith, eq_iff j k, without_key k keys fs)

-- The canonical form of a value that may be missing.
unfoldable pub canonical_option : Option Value → Option Value
canonical_option none = none
canonical_option (some v) = some (canonical v)

pub get-canonical_pairs :
    (k : String) (fs : Pairs) → get_field k (canonical_pairs fs) ≡ canonical_option (get_field k fs)
unfolding get_field canonical canonical_option
get-canonical_pairs k no_pair = refl
get-canonical_pairs k (pair j v fs) =
    ground
      (arith, get-insert_field k j (canonical v) (canonical_pairs fs), get-canonical_pairs k fs)

not_removed :
    (k : String) (keys : List String) (fs : Pairs)
    → mem k keys ≡ false
    → get_field k (canonical_pairs (without_keys keys fs)) ≡ get_field k (canonical_pairs fs)
not_removed k keys fs m =
    get-canonical_pairs k (without_keys keys fs)
    ∙ (ap canonical_option (ground (arith, without_key k keys fs)) ∙ sym (get-canonical_pairs k fs))

-- Dicts that are the same without some keys agree at every other key.
pub same_outside :
    (k : String) (keys : List String) (fs gs : Pairs)
    → differ (obj (without_keys keys fs)) (obj (without_keys keys gs)) ≡ false
    → mem k keys ≡ false
    → get_field k (canonical_pairs fs) ≡ get_field k (canonical_pairs gs)
unfolding differ canonical fields_of
same_outside k keys fs gs h m =
    let whole =
      same_sound (obj (canonical_pairs (without_keys keys fs)))
        (obj (canonical_pairs (without_keys keys gs))) (ground arith) in
    let e = ap (λ v. get_field k (fields_of v)) whole in
    sym (not_removed k keys fs m) ∙ (e ∙ not_removed k keys gs m)

pub has_outbounds :
    (c : Value)
    → validate_config c ≡ true
    → get_field "outbounds" (fields_of c) ≡ some (arr (outbounds c))
unfolding validate_config valid_section outbounds list_field fields_of
has_outbounds (obj fs) h = ground arith
has_outbounds null h = ground arith
has_outbounds foreign h = ground arith
has_outbounds (flag b) h = ground arith
has_outbounds (number n) h = ground arith
has_outbounds (text t) h = ground arith
has_outbounds (arr vs) h = ground arith

pub has_routing :
    (c : Value)
    → validate_config c ≡ true
    → get_field "routing" (fields_of c) ≡ some (obj (routing_of c))
unfolding validate_config valid_routing routing_of dict_field fields_of
has_routing (obj fs) h = ground arith
has_routing null h = ground arith
has_routing foreign h = ground arith
has_routing (flag b) h = ground arith
has_routing (number n) h = ground arith
has_routing (text t) h = ground arith
has_routing (arr vs) h = ground arith
