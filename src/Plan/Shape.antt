-- ===== src/Plan/Shape.antt =====
-- The shape of a configuration that `_validate_config` accepts.
use bypass_keenetic.Prelude.{
  true, false, none, some, String, ◌==◌, List, [], ◌∷◌, ◌≡◌, ◌⊎◌, refl, arith, eq_iff, Bool-cases,
  Option-cases, inl, inr, sym, subst,
}
use bypass_keenetic.Prelude.Text.{strip}
use bypass_keenetic.KeyPool.Catalog.{mem}
use bypass_keenetic.Plan.Json.{
  Value, null, foreign, flag, number, text, arr, obj, Entries, no_entry, entry, Pairs, no_pair,
  pair, json_value, json_entries, json_pairs, get_field,
}
use bypass_keenetic.Plan.Config.{text_field, valid_entries}

-- The value has nothing in it that JSON does not have.
unfoldable mutual
  pub IsJson : Value → Type 0
  IsJson foreign = ⊥
  IsJson (arr vs) = EntriesJson vs
  IsJson (obj fs) = PairsJson fs
  IsJson _ = Unit {0}

  pub EntriesJson : Entries → Type 0
  EntriesJson no_entry = Unit {0}
  EntriesJson (entry v vs) = IsJson v × EntriesJson vs

  pub PairsJson : Pairs → Type 0
  PairsJson no_pair = Unit {0}
  PairsJson (pair k v fs) = IsJson v × PairsJson fs

-- The field is a text that is not blank.
abbrev pub TextField : String → String → Pairs → Type 0
TextField k t fs = (get_field k fs ≡ some (text t)) × ((strip t == "") ≡ false)

-- A dict with this tag and a protocol.
abbrev pub Handler : String → Value → Type 0
Handler tag v =
    (fs : Pairs) × (protocol : String) × (v ≡ obj fs)
    × TextField "tag" tag fs
    × TextField "protocol" protocol fs

-- The entries are dicts with these tags.
abbrev pub Handlers : List String → Entries → Type 0
Handlers [] no_entry = Unit {0}
Handlers [] (entry v vs) = ⊥
Handlers (t ∷ ts) no_entry = ⊥
Handlers (t ∷ ts) (entry v vs) = Handler t v × Handlers ts vs

-- No text occurs twice.
abbrev pub Unique : List String → Type 0
Unique [] = Unit {0}
Unique (t ∷ ts) = (mem t ts ≡ false) × Unique ts

-- The section is a list of handlers with distinct tags.
abbrev pub Section : String → Pairs → Entries → Type 0
Section section fs vs =
    (tags : List String) × (get_field section fs ≡ some (arr vs)) × Handlers tags vs × Unique tags

abbrev pub EachDict : Entries → Type 0
EachDict no_entry = Unit {0}
EachDict (entry v vs) = ((fs : Pairs) × (v ≡ obj fs)) × EachDict vs

-- The section is missing, or a list of dicts.
abbrev pub Rules : String → Pairs → Type 0
Rules section fs =
    (get_field section fs ≡ none)
    ⊎ ((vs : Entries) × (get_field section fs ≡ some (arr vs)) × EachDict vs)

abbrev pub Accepted : Value → Type 0
Accepted config =
    (fs : Pairs) × (ins outs : Entries) × (routing : Pairs) × (config ≡ obj fs)
    × IsJson config
    × Section "inbounds" fs ins
    × Section "outbounds" fs outs
    × (outs ≡ no_entry → ⊥)
    × (get_field "routing" fs ≡ some (obj routing))
    × Rules "rules" routing
    × Rules "balancers" routing

mutual
  unfolding json_value IsJson

  pub json_value-IsJson : (v : Value) → json_value v ≡ true → IsJson v
  json_value-IsJson null h = tt
  json_value-IsJson foreign h = ground arith
  json_value-IsJson (flag b) h = tt
  json_value-IsJson (number n) h = tt
  json_value-IsJson (text t) h = tt
  json_value-IsJson (arr vs) h = entries-is vs h
  json_value-IsJson (obj fs) h = pairs-is fs h

  entries-is : (vs : Entries) → json_entries vs ≡ true → EntriesJson vs
  entries-is no_entry h = tt
  entries-is (entry v vs) h = (json_value-IsJson v (ground arith), entries-is vs (ground arith))

  pairs-is : (fs : Pairs) → json_pairs fs ≡ true → PairsJson fs
  pairs-is no_pair h = tt
  pairs-is (pair k v fs) h = (json_value-IsJson v (ground arith), pairs-is fs (ground arith))

mutual
  unfolding json_value IsJson

  pub IsJson-json_value : (v : Value) → IsJson v → json_value v ≡ true
  IsJson-json_value null h = refl
  IsJson-json_value foreign h = absurd h
  IsJson-json_value (flag b) h = refl
  IsJson-json_value (number n) h = refl
  IsJson-json_value (text t) h = refl
  IsJson-json_value (arr vs) h = is-entries vs h
  IsJson-json_value (obj fs) h = is-pairs fs h

  is-entries : (vs : Entries) → EntriesJson vs → json_entries vs ≡ true
  is-entries no_entry h = refl
  is-entries (entry v vs) (h, hs) = ground (arith, IsJson-json_value v h, is-entries vs hs)

  is-pairs : (fs : Pairs) → PairsJson fs → json_pairs fs ≡ true
  is-pairs no_pair h = refl
  is-pairs (pair k v fs) (h, hs) = ground (arith, IsJson-json_value v h, is-pairs fs hs)

text_field-TextField : (k t : String) (fs : Pairs) → text_field k fs ≡ some t → TextField k t fs
unfolding text_field
text_field-TextField k t fs h = elim (Option-cases (get_field k fs)) [
  | inl missing ↦ ground arith
  | inr (null, g) ↦ ground arith
  | inr (foreign, g) ↦ ground arith
  | inr (flag b, g) ↦ ground arith
  | inr (number n, g) ↦ ground arith
  | inr (text u, g) ↦ (ground arith, ground arith)
  | inr (arr vs, g) ↦ ground arith
  | inr (obj gs, g) ↦ ground arith
]

field_given : (k t : String) (fs : Pairs) → TextField k t fs → text_field k fs ≡ some t
unfolding text_field
field_given k t fs (g, f) = ground (arith, g, f)

Handler-entry :
    (seen : List String) (v : Value) (vs : Entries)
    → valid_entries seen (entry v vs) ≡ true
    → (tag : String) × Handler tag v
      × (mem tag seen ≡ false)
      × (valid_entries (tag ∷ seen) vs ≡ true)
unfolding valid_entries
Handler-entry seen null vs h = ground arith
Handler-entry seen foreign vs h = ground arith
Handler-entry seen (flag b) vs h = ground arith
Handler-entry seen (number n) vs h = ground arith
Handler-entry seen (text t) vs h = ground arith
Handler-entry seen (arr us) vs h = ground arith
Handler-entry seen (obj fs) vs h = elim (Option-cases (text_field "tag" fs)) [
  | inl missing ↦ ground arith
  | inr (tag, t) ↦ elim (Option-cases (text_field "protocol" fs)) [
    | inl missing ↦ ground arith
    | inr (protocol, p) ↦ (
      tag,
      (
        fs,
        protocol,
        refl,
        text_field-TextField "tag" tag fs t,
        text_field-TextField "protocol" protocol fs p,
      ),
      ground arith,
      ground arith,
    )
  ]
]

-- The tags are distinct, and none of them is one of those seen.
abbrev pub Apart : List String → List String → Type 0
Apart seen ts = Unique ts × ((t : String) → mem t ts ≡ true → mem t seen ≡ false)

tag_joined :
    (seen : List String) (tag : String) (ts : List String)
    → mem tag seen ≡ false
    → Apart (tag ∷ seen) ts
    → Apart seen (tag ∷ ts)
unfolding mem
tag_joined seen tag ts fresh (unique, others) = (
  (
    elim (Bool-cases (mem tag ts)) [
      | inl twice ↦ ground (arith, others tag twice, eq_iff tag tag)
      | inr once ↦ once
    ],
    unique,
  ),
  λ t m. elim (Bool-cases (tag == t)) [
    | inl same ↦ subst (λ x. mem x seen ≡ false) ((eq_iff tag t).0 same) fresh
    | inr other ↦ ground (arith, others t)
  ],
)

tag_split :
    (seen : List String) (tag : String) (ts : List String)
    → Apart seen (tag ∷ ts)
    → (mem tag seen ≡ false) × Apart (tag ∷ seen) ts
unfolding mem
tag_split seen tag ts ((fresh, unique), others) = (
  ground (arith, others tag, eq_iff tag tag),
  (
    unique,
    λ t m. elim (Bool-cases (tag == t)) [
      | inl same ↦
          (let twice : mem tag ts ≡ true =
              subst (λ x. mem x ts ≡ true) (sym ((eq_iff tag t).0 same)) m in
            ground (arith, twice, fresh))
      | inr other ↦ ground (arith, others t)
    ],
  ),
)

pub valid_entries-Handlers :
    (seen : List String) (vs : Entries)
    → valid_entries seen vs ≡ true
    → (tags : List String) × Handlers tags vs × Apart seen tags
unfolding mem
valid_entries-Handlers seen no_entry h = ([], tt, (tt, λ t m. ground arith))
valid_entries-Handlers seen (entry v vs) h =
    let (tag, handler, fresh, rest) = Handler-entry seen v vs h in
    let (tags, each, new) = valid_entries-Handlers (tag ∷ seen) vs rest in
    (tag ∷ tags, (handler, each), tag_joined seen tag tags fresh new)

pub handlers_valid :
    (seen tags : List String) (vs : Entries)
    → Handlers tags vs
    → Apart seen tags
    → valid_entries seen vs ≡ true
unfolding valid_entries
handlers_valid seen [] no_entry h a = refl
handlers_valid seen [] (entry v vs) h a = absurd h
handlers_valid seen (t ∷ ts) no_entry h a = absurd h
handlers_valid seen (t ∷ ts) (entry v vs) ((fs, protocol, o, tagged, named), hs) a =
    let (fresh, rest) = tag_split seen t ts a in
    let valid = handlers_valid (t ∷ seen) ts vs hs rest in
    subst (λ x. valid_entries seen (entry x vs) ≡ true) (sym o)
      (ground (
        arith,
        field_given "tag" t fs tagged,
        field_given "protocol" protocol fs named,
        fresh,
        valid,
      ))
