-- ===== src/Plan/Untouched.antt =====
-- What the kinds of change promise.
use bypass_keenetic.Prelude.{
  Bool, true, false, ◌||◌, some, String, ◌==◌, [], ◌∷◌, ◌≡◌, refl, arith, eq_iff, Bool-cases,
  Option-cases, inl, inr, ap, sym, subst, ◌∙◌,
}
use bypass_keenetic.KeyPool.Catalog.{mem}
use bypass_keenetic.Plan.Json.{
  Value, null, foreign, flag, number, text, arr, obj, canonical, get_field, canonical_pairs,
}
use bypass_keenetic.Plan.Config.{validate_config, config_fingerprint}
use bypass_keenetic.Plan.Change.{
  ChangeKind, unchanged, outbound, routing, outbound_and_routing, core, fields_of, outbounds,
  routing_of, core_of, differ, kind_of_change, classify_config_change,
}
use bypass_keenetic.Plan.Difference.{
  value_at, same_sound, same_outside, has_outbounds, has_routing, get-canonical_pairs,
  canonical_option,
}

-- The keys of the configuration that a change of the kind may touch.
unfoldable pub touched : ChangeKind → String → Bool
touched unchanged k = false
touched outbound k = k == "outbounds"
touched routing k = k == "routing"
touched outbound_and_routing k = k == "outbounds" || k == "routing"
touched core k = true

same_value : (v w : Value) → differ v w ≡ false → canonical v ≡ canonical w
unfolding differ
same_value v w h = same_sound (canonical v) (canonical w) (ground arith)

same_at :
    (k : String) (c d v w : Value)
    → get_field k (fields_of c) ≡ some v
    → get_field k (fields_of d) ≡ some w
    → differ v w ≡ false
    → value_at k c ≡ value_at k d
unfolding canonical_option
same_at k c d v w a b h =
    get-canonical_pairs k (fields_of c)
    ∙ (ap canonical_option a
        ∙ (ap some (same_value v w h)
            ∙ (sym (ap canonical_option b) ∙ sym (get-canonical_pairs k (fields_of d)))))

others :
    (k : String)
    → (k == "outbounds") ≡ false
    → (k == "routing") ≡ false
    → mem k ("outbounds" ∷ "routing" ∷ []) ≡ false
unfolding mem
others k a b =
    ground
      (arith, eq_iff "outbounds" k, eq_iff k "outbounds", eq_iff "routing" k, eq_iff k "routing")

kept_outbounds :
    (c d : Value)
    → touched (kind_of_change c d) "outbounds" ≡ false
    → differ (arr (outbounds c)) (arr (outbounds d)) ≡ false
unfolding kind_of_change touched
kept_outbounds c d t = ground (arith, eq_iff "outbounds" "outbounds")

kept_routing :
    (c d : Value)
    → touched (kind_of_change c d) "routing" ≡ false
    → differ (obj (routing_of c)) (obj (routing_of d)) ≡ false
unfolding kind_of_change touched
kept_routing c d t = ground (arith, eq_iff "routing" "routing")

kept_core :
    (c d : Value) (k : String)
    → touched (kind_of_change c d) k ≡ false
    → differ (core_of c) (core_of d) ≡ false
unfolding kind_of_change touched
kept_core c d k t = ground arith

kept :
    (c d : Value) (k : String)
    → validate_config c ≡ true
    → validate_config d ≡ true
    → touched (kind_of_change c d) k ≡ false
    → value_at k c ≡ value_at k d
unfolding core_of
kept c d k vc vd t = elim (Bool-cases (k == "outbounds")) [
  | inl o ↦
      (let e = (eq_iff k "outbounds").0 o in
        subst (λ x. value_at x c ≡ value_at x d) (sym e)
          (same_at "outbounds" c d (arr (outbounds c)) (arr (outbounds d)) (has_outbounds c vc)
            (has_outbounds d vd)
            (kept_outbounds c d (subst (λ x. touched (kind_of_change c d) x ≡ false) e t))))
  | inr o ↦ elim (Bool-cases (k == "routing")) [
    | inl r ↦
        (let e = (eq_iff k "routing").0 r in
          subst (λ x. value_at x c ≡ value_at x d) (sym e)
            (same_at "routing" c d (obj (routing_of c)) (obj (routing_of d)) (has_routing c vc)
              (has_routing d vd)
              (kept_routing c d (subst (λ x. touched (kind_of_change c d) x ≡ false) e t))))
    | inr r ↦
        same_outside k ("outbounds" ∷ "routing" ∷ []) (fields_of c) (fields_of d)
          (kept_core c d k t) (others k o r)
  ]
]

fields-canonical : (c : Value) → fields_of (canonical c) ≡ canonical_pairs (fields_of c)
unfolding canonical fields_of
fields-canonical null = refl
fields-canonical foreign = refl
fields-canonical (flag b) = refl
fields-canonical (number n) = refl
fields-canonical (text t) = refl
fields-canonical (arr vs) = refl
fields-canonical (obj fs) = refl

same_whole : (c d : Value) (k : String) → canonical c ≡ canonical d → value_at k c ≡ value_at k d
same_whole c d k e =
    ap (get_field k) (sym (fields-canonical c) ∙ (ap fields_of e ∙ fields-canonical d))

module _ (digest : Value → String) where
  valid_of :
      (c : Value) (f : String)
      → config_fingerprint digest c ≡ some f
      → (validate_config c ≡ true) × (digest (canonical c) ≡ f)
  unfolding config_fingerprint
  valid_of c f h = ground arith

  -- `classify_config_change`: a change that it calls unchanged leaves each key of the configuration as it
  -- is, up to the order of keys in dicts; one of the outbounds, the routing or both leaves each other key as it
  -- is. Condition: the digest tells the two configurations apart if they differ.
  pub classify_config_change-touched :
      (current desired : Value) (kind : ChangeKind) (key : String)
      → (digest (canonical current) ≡ digest (canonical desired)
          → canonical current ≡ canonical desired)
      → classify_config_change digest current desired ≡ some kind
      → touched kind key ≡ false
      → value_at key current ≡ value_at key desired
  unfolding classify_config_change
  classify_config_change-touched current desired kind key apart h t =
      elim (Option-cases (config_fingerprint digest current)) [
        | inl e ↦ ground arith
        | inr (a, e) ↦ elim (Option-cases (config_fingerprint digest desired)) [
          | inl f ↦ ground arith
          | inr (b, f) ↦
              (let (vc, dc) = valid_of current a e in
                let (vd, dd) = valid_of desired b f in
                elim (Bool-cases (a == b)) [
                  | inl s ↦
                      same_whole current desired key (apart (dc ∙ ((eq_iff a b).0 s ∙ sym dd)))
                  | inr s ↦ kept current desired key vc vd (ground arith)
                ])
        ]
      ]
