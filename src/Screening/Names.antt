-- ===== src/Screening/Names.antt =====
-- The custom results of `check_required` have distinct names, each that of a check of the contract.
use bypass_keenetic.Prelude.{
  ℕ, Bool, true, false, ◌||◌, not, Option, none, some, String, ◌==◌, List, [], ◌∷◌, ◌≡◌, ◌⊎◌, refl,
  arith, Bool-cases, inl, inr, ap, sym, subst, ◌∙◌,
}
use bypass_keenetic.Prelude.Dict
use bypass_keenetic.Prelude.Dict.{Dict}
use bypass_keenetic.Screening.Checks.{
  Check, Contract, Values, Outcome, Calls, Tried, passed, failed, unknown, over, Step, next,
  returned, no_values, required, put_service, is_true, service_result, check_result, budget,
  probe_service, services_loop, targets, urls_loop, checks_loop, check_required,
}
use bypass_keenetic.Screening.Verdicts.{Step-cases}
use bypass_keenetic.Screening.Good.{next_check}
use bypass_keenetic.Screening.Entries.{has, matching}
use bypass_keenetic.Screening.Dictionaries.{distinct, distinct-put, has-put}

-- The results have distinct names, each the name of a check.
pub record Fits (cs : List Check) (d : Dict Bool) : Type 0 where
  pub names : distinct d ≡ true
  pub known : (id : String) → matching id cs ≡ none → has id d ≡ false

check_result_custom :
    (c : Check) (v : Values) (o : Outcome) (t : Tried)
    → check_result c v t ≡ returned o
    → (o.values.custom ≡ v.custom) ⊎ ((b : Bool) × (o.values.custom ≡ Dict.put c.id b v.custom))
unfolding check_result
check_result_custom c v o passed e = ground arith
check_result_custom c v o failed e = inr (false, ground arith)
check_result_custom c v o unknown e = inl (ground arith)
check_result_custom c v o over e = inl (ground arith)

service_result_custom :
    (s : String) (v : Values) (r : Option Bool)
    → ((v' : Values) × (service_result s v r ≡ next v') × (v'.custom ≡ v.custom))
      ⊎ ((o : Outcome) × (service_result s v r ≡ returned o) × (o.values.custom ≡ v.custom))
unfolding service_result is_true put_service
service_result_custom s v none = inr (_, refl, ground arith)
service_result_custom s v (some true) = inl (_, refl, ground arith)
service_result_custom s v (some false) = inr (_, refl, ground arith)

custom_of : Step → Dict Bool
custom_of (next v) = v.custom
custom_of (returned o) = o.values.custom

Fits-put :
    (all : List Check) (c : Check) (b : Bool) (d : Dict Bool)
    → ((id : String) → matching id all ≡ none → (c.id == id) ≡ false)
    → Fits all d
    → Fits all (Dict.put c.id b d)
Fits-put all c b d differs f = record {
  names = distinct-put c.id b d f.names;
  known = λ id n. ground (arith, has-put c.id id b d, differs id n, f.known id n);
}

no_values-Fits : (all : List Check) → Fits all no_values.custom
unfolding no_values distinct has
no_values-Fits all = record { names = refl; known = λ id n. refl }

module _ {W : Type 0} (calls : Calls W) (timeouts : ℕ × ℕ) (deadline : Option ℕ) where
  services_loop_custom :
      (primary : String) (k : Contract) (services : List String) (v : Values) (w : W)
      → custom_of (services_loop calls timeouts deadline primary k services v w).0 ≡ v.custom
  unfolding services_loop custom_of
  services_loop_custom primary k [] v w = refl
  services_loop_custom primary k (service ∷ services) v w =
      elim (Bool-cases (service == primary || not (required service k))) [
        | inl skip ↦ ground (arith, services_loop_custom primary k services v w)
        | inr probe ↦
            (let start = budget calls timeouts deadline w in
              let r = probe_service calls timeouts deadline service start.1 in
              elim (Bool-cases start.0) [
                | inr late ↦ ground arith
                | inl early ↦ elim (service_result_custom service v r.0) [
                  | inr (o, n, same) ↦ ground (arith, same)
                  | inl (u, n, same) ↦
                      ground (arith, same, services_loop_custom primary k services u r.1)
                ]
              ])
      ]

  checks_loop-Fits :
      (cs : List Check) (v : Values) (w : W) (all : List Check) (o : Outcome)
      → ((id : String) → matching id all ≡ none → matching id cs ≡ none)
      → Fits all v.custom
      → (checks_loop calls timeouts deadline cs v w).0 ≡ o
      → Fits all o.values.custom
  unfolding checks_loop matching
  checks_loop-Fits [] v w all o within f e =
      subst (λ x. Fits all x) (ap (λ (x : Outcome). x.values.custom) e) f
  checks_loop-Fits (c ∷ cs) v w all o within f e =
      let tried = urls_loop calls timeouts deadline (targets c) w in
      let differs : (id : String) → matching id all ≡ none → (c.id == id) ≡ false =
        λ id n. ground (arith, within id n) in
      let fewer : (id : String) → matching id all ≡ none → matching id cs ≡ none =
        λ id n. ground (arith, within id n) in
      elim (Step-cases (check_result c v tried.0)) [
        | inl (u, n) ↦
            checks_loop-Fits cs u tried.1 all o fewer
              (subst (λ x. Fits all x.custom) (sym (next_check c v u tried.0 n))
                (Fits-put all c true v.custom differs f))
              (ground arith)
        | inr (r, n) ↦
            (let same : r.values.custom ≡ o.values.custom = ground arith in
              elim (check_result_custom c v r tried.0 n) [
                | inl kept ↦ subst (Fits all) (sym kept ∙ same) f
                | inr (b, put) ↦
                    subst (Fits all) (sym put ∙ same) (Fits-put all c b v.custom differs f)
              ])
      ]

  pub outcome-Fits :
      (primary : String) (k : Contract) (w : W) (o : Outcome)
      → (check_required calls timeouts deadline primary k w).0 ≡ o
      → Fits k.custom o.values.custom
  unfolding check_required custom_of
  outcome-Fits primary k w o e =
      let both : List String = "telegram" ∷ "youtube" ∷ [] in
      let first = services_loop calls timeouts deadline primary k both no_values w in
      let custom = services_loop_custom primary k both no_values w in
      elim (Step-cases first.0) [
        | inr (r, n) ↦
            (let same : no_values.custom ≡ o.values.custom = ground (arith, custom) in
              subst (Fits k.custom) same (no_values-Fits k.custom))
        | inl (v, n) ↦
            (let same : no_values.custom ≡ v.custom = ground (arith, custom) in
              checks_loop-Fits k.custom v first.1 k.custom o (λ id m. m)
                (subst (Fits k.custom) same (no_values-Fits k.custom)) (ground arith))
      ]
