-- ===== src/Plan/Accept.antt =====
-- `_validate_config` against the shape of a configuration.
use bypass_keenetic.Prelude.{
  Bool, true, false, if◌then◌else◌, some, String, List, [], ◌≡◌, ◌↔◌, refl, arith, Option-cases,
  inl, inr, sym, subst,
}
use bypass_keenetic.KeyPool.Catalog.{mem}
use bypass_keenetic.Plan.Json.{
  Value, null, foreign, flag, number, text, arr, obj, Entries, no_entry, entry, Pairs, json_value,
  get_field,
}
use bypass_keenetic.Plan.Config.{
  no_entries, list_field, dict_field, valid_section, valid_rules, valid_routing, all_dicts,
  validate_config, valid_entries,
}
use bypass_keenetic.Plan.Shape.{
  Section, Rules, EachDict, Accepted, Handlers, Apart, IsJson, json_value-IsJson, IsJson-json_value,
  valid_entries-Handlers, handlers_valid,
}

list_given :
    (k : String) (fs : Pairs) (vs : Entries)
    → list_field k fs ≡ some vs
    → get_field k fs ≡ some (arr vs)
unfolding list_field
list_given k fs vs h = elim (Option-cases (get_field k fs)) [
  | inl missing ↦ ground arith
  | inr (null, g) ↦ ground arith
  | inr (foreign, g) ↦ ground arith
  | inr (flag b, g) ↦ ground arith
  | inr (number n, g) ↦ ground arith
  | inr (text t, g) ↦ ground arith
  | inr (arr us, g) ↦ ground arith
  | inr (obj gs, g) ↦ ground arith
]

dict_given :
    (k : String) (fs gs : Pairs) → dict_field k fs ≡ some gs → get_field k fs ≡ some (obj gs)
unfolding dict_field
dict_given k fs gs h = elim (Option-cases (get_field k fs)) [
  | inl missing ↦ ground arith
  | inr (null, g) ↦ ground arith
  | inr (foreign, g) ↦ ground arith
  | inr (flag b, g) ↦ ground arith
  | inr (number n, g) ↦ ground arith
  | inr (text t, g) ↦ ground arith
  | inr (arr us, g) ↦ ground arith
  | inr (obj hs, g) ↦ ground arith
]

-- Whether a section may have no entry.
abbrev MayBe : Bool → Entries → Type 0
MayBe true vs = Unit {0}
MayBe false vs = vs ≡ no_entry → ⊥

some_entry : (v : Value) (vs : Entries) → entry v vs ≡ no_entry → ⊥
some_entry v vs e = ground arith

entries_of :
    (may_be_empty : Bool) (vs : Entries)
    → (if no_entries vs then may_be_empty else valid_entries [] vs) ≡ true
    → (tags : List String) × Handlers tags vs × Apart [] tags × MayBe may_be_empty vs
unfolding no_entries mem
entries_of true no_entry h = ([], tt, (tt, λ t m. ground arith), tt)
entries_of false no_entry h = ground arith
entries_of true (entry v vs) h =
    let (tags, each, apart) = valid_entries-Handlers [] (entry v vs) h in (tags, each, apart, tt)
entries_of false (entry v vs) h =
    let (tags, each, apart) = valid_entries-Handlers [] (entry v vs) h in
    (tags, each, apart, some_entry v vs)

valid_section-Section :
    (may_be_empty : Bool) (section : String) (fs : Pairs)
    → valid_section may_be_empty section fs ≡ true
    → (vs : Entries) × Section section fs vs × MayBe may_be_empty vs
unfolding valid_section
valid_section-Section b section fs h = elim (Option-cases (list_field section fs)) [
  | inl missing ↦ ground arith
  | inr (vs, l) ↦
      let (tags, each, (unique, _), full) = entries_of b vs (ground arith) in
      (vs, (tags, list_given section fs vs l, each, unique), full)
]

entries_accepted :
    (b : Bool) (tags : List String) (vs : Entries)
    → Handlers tags vs
    → Apart [] tags
    → MayBe b vs
    → (if no_entries vs then b else valid_entries [] vs) ≡ true
unfolding no_entries
entries_accepted true tags no_entry h a m = refl
entries_accepted false tags no_entry h a m = absurd (m refl)
entries_accepted b tags (entry v vs) h a m = handlers_valid [] tags (entry v vs) h a

Section-valid :
    (b : Bool) (section : String) (fs : Pairs) (vs : Entries)
    → Section section fs vs
    → MayBe b vs
    → valid_section b section fs ≡ true
unfolding valid_section list_field mem
Section-valid b section fs vs (tags, g, each, unique) m =
    ground (arith, g, entries_accepted b tags vs each (unique, λ t m. refl) m)

all_dicts-EachDict : (vs : Entries) → all_dicts vs ≡ true → EachDict vs
unfolding all_dicts
all_dicts-EachDict no_entry h = tt
all_dicts-EachDict (entry null vs) h = ground arith
all_dicts-EachDict (entry foreign vs) h = ground arith
all_dicts-EachDict (entry (flag b) vs) h = ground arith
all_dicts-EachDict (entry (number n) vs) h = ground arith
all_dicts-EachDict (entry (text t) vs) h = ground arith
all_dicts-EachDict (entry (arr us) vs) h = ground arith
all_dicts-EachDict (entry (obj fs) vs) h = ((fs, refl), all_dicts-EachDict vs h)

each_dict : (vs : Entries) → EachDict vs → all_dicts vs ≡ true
unfolding all_dicts
each_dict no_entry h = refl
each_dict (entry v vs) ((fs, o), hs) =
    subst (λ x. all_dicts (entry x vs) ≡ true) (sym o) (each_dict vs hs)

valid_rules-Rules :
    (section : String) (fs : Pairs) → valid_rules section fs ≡ true → Rules section fs
unfolding valid_rules
valid_rules-Rules section fs h = elim (Option-cases (get_field section fs)) [
  | inl missing ↦ inl missing
  | inr (null, g) ↦ ground arith
  | inr (foreign, g) ↦ ground arith
  | inr (flag b, g) ↦ ground arith
  | inr (number n, g) ↦ ground arith
  | inr (text t, g) ↦ ground arith
  | inr (arr vs, g) ↦ inr (vs, g, all_dicts-EachDict vs (ground arith))
  | inr (obj gs, g) ↦ ground arith
]

Rules-valid : (section : String) (fs : Pairs) → Rules section fs → valid_rules section fs ≡ true
unfolding valid_rules
Rules-valid section fs (inl missing) = ground (arith, missing)
Rules-valid section fs (inr (vs, g, each)) = ground (arith, g, each_dict vs each)

valid_routing-Rules :
    (fs : Pairs)
    → valid_routing fs ≡ true
    → (routing : Pairs) × (get_field "routing" fs ≡ some (obj routing))
      × Rules "rules" routing
      × Rules "balancers" routing
unfolding valid_routing
valid_routing-Rules fs h = elim (Option-cases (dict_field "routing" fs)) [
  | inl missing ↦ ground arith
  | inr (routing, d) ↦ (
    routing,
    dict_given "routing" fs routing d,
    valid_rules-Rules "rules" routing (ground arith),
    valid_rules-Rules "balancers" routing (ground arith),
  )
]

routing_valid :
    (fs routing : Pairs)
    → get_field "routing" fs ≡ some (obj routing)
    → Rules "rules" routing
    → Rules "balancers" routing
    → valid_routing fs ≡ true
unfolding valid_routing dict_field
routing_valid fs routing g rules balancers =
    ground (arith, g, Rules-valid "rules" routing rules, Rules-valid "balancers" routing balancers)

validated-Accepted : (config : Value) → validate_config config ≡ true → Accepted config
unfolding validate_config
validated-Accepted (obj fs) h =
    let (ins, inbounds, _) = valid_section-Section true "inbounds" fs (ground arith) in
    let (outs, outbounds, full) = valid_section-Section false "outbounds" fs (ground arith) in
    let (routing, routed, rules, balancers) = valid_routing-Rules fs (ground arith) in
    (
      fs,
      ins,
      outs,
      routing,
      refl,
      json_value-IsJson (obj fs) (ground arith),
      inbounds,
      outbounds,
      full,
      routed,
      rules,
      balancers,
    )
validated-Accepted null h = ground arith
validated-Accepted foreign h = ground arith
validated-Accepted (flag b) h = ground arith
validated-Accepted (number n) h = ground arith
validated-Accepted (text t) h = ground arith
validated-Accepted (arr vs) h = ground arith

Accepted-validated : (config : Value) → Accepted config → validate_config config ≡ true
unfolding validate_config
Accepted-validated config
      (fs, ins, outs, routing, o, json, inbounds, outbounds, full, routed, rules, balancers) =
    let plain : json_value (obj fs) ≡ true = IsJson-json_value (obj fs) (subst IsJson o json) in
    subst (λ x. validate_config x ≡ true) (sym o)
      (ground (
        arith,
        plain,
        Section-valid true "inbounds" fs ins inbounds tt,
        Section-valid false "outbounds" fs outs outbounds full,
        routing_valid fs routing routed rules balancers,
      ))

-- `_validate_config` accepts a configuration exactly where it is a dict of JSON values, its
-- inbounds and outbounds are lists of dicts, each with a tag and a protocol that are texts and not
-- blank, no tag occurs twice in one of these lists, the list of outbounds is not empty, its routing
-- is a dict, and the rules and the balancers of the routing are missing or lists of dicts.
pub validate_config-Accepted : (config : Value) → (validate_config config ≡ true) ↔ Accepted config
validate_config-Accepted config = (validated-Accepted config, Accepted-validated config)
