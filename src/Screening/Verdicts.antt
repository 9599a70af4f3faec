-- ===== src/Screening/Verdicts.antt =====
-- What the verdict of `check_required` says of the results.
use bypass_keenetic.Prelude.{
  ℕ, Bool, true, false, ◌||◌, not, Option, none, some, String, ◌==◌, if◌then◌else◌, List, [], ◌∷◌,
  ◌≡◌, ◌⊎◌, inl, inr, refl, arith, eq_iff, Bool-cases, sym, subst,
}
use bypass_keenetic.Prelude.Dict
use bypass_keenetic.Prelude.Dict.{Dict}
use bypass_keenetic.Screening.Checks.{
  Check, Contract, Values, Outcome, Calls, Tried, passed, failed, unknown, over, Step, next,
  returned, required, put_service, is_true, service_result, check_result, budget, probe_service,
  services_loop, targets, urls_loop, checks_loop,
}

-- No result is a failure.
pub record Clean (v : Values) : Type 0 where
  pub tg : v.tg_ok ≡ some (some false) → ⊥
  pub yt : v.yt_ok ≡ some (some false) → ⊥
  pub checks : (id : String) → Dict.get id v.custom ≡ some false → ⊥

-- The result of the service or check of this name is a failure.
abbrev pub Failing : String → Values → Type 0
Failing name v =
    ((name ≡ "telegram") × (v.tg_ok ≡ some (some false)))
    ⊎ ((name ≡ "youtube") × (v.yt_ok ≡ some (some false)))
    ⊎ (Dict.get name v.custom ≡ some false)

abbrev pub Told : Option Bool → String → Values → Type 0
Told none name v = Clean v
Told (some true) name v = Clean v
Told (some false) name v = Failing name v

abbrev pub ToldOutcome : Outcome → Type 0
ToldOutcome o = Told o.verdict o.reason o.values

abbrev pub ToldStep : Step → Type 0
ToldStep (next v) = Clean v
ToldStep (returned o) = Told o.verdict o.reason o.values

pub put_check :
    (c : Check) (b : Bool) (v : Values) (id : String)
    → Dict.get id (Dict.put c.id b v.custom) ≡ (if c.id == id then some b else Dict.get id v.custom)
put_check c b v id = Dict.get-put c.id id b v.custom

pub check_result-Told :
    (c : Check) (v : Values) (t : Tried) → Clean v → ToldStep (check_result c v t)
unfolding check_result
check_result-Told c v passed h = record {
  tg = h.tg;
  yt = h.yt;
  checks = λ id e. h.checks id (ground (arith, put_check c true v id));
}
check_result-Told c v failed h =
    inr (inr (ground (arith, put_check c false v c.id, eq_iff c.id c.id)))
check_result-Told c v unknown h = h
check_result-Told c v over h = h

put_service-Clean :
    (service : String) (r : Option Bool) (v : Values)
    → (r ≡ some false → ⊥)
    → Clean v
    → Clean (put_service service r v)
unfolding put_service
put_service-Clean service r v good h = elim (Bool-cases (service == "telegram")) [
  | inl t ↦ record {
    tg = ground (arith, h.tg, good);
    yt = ground (arith, h.yt);
    checks = ground (arith, h.checks);
  }
  | inr t ↦ record {
    tg = ground (arith, h.tg);
    yt = ground (arith, h.yt, good);
    checks = ground (arith, h.checks);
  }
]

put_service-Failing :
    (service : String) (v : Values)
    → (service ≡ "telegram") ⊎ (service ≡ "youtube")
    → Failing service (put_service service (some false) v)
unfolding put_service
put_service-Failing service v (inl t) = inl (t, ground (arith, eq_iff service "telegram"))
put_service-Failing service v (inr y) =
    inr
      (inl (y, subst (λ x. (put_service x (some false) v).yt_ok ≡ some (some false)) (sym y) refl))

service_result-Told :
    (service : String) (v : Values) (r : Option Bool)
    → (service ≡ "telegram") ⊎ (service ≡ "youtube")
    → Clean v
    → ToldStep (service_result service v r)
unfolding service_result is_true
service_result-Told service v none known h = put_service-Clean service none v (λ e. ground arith) h
service_result-Told service v (some true) known h =
    put_service-Clean service (some true) v (λ e. ground arith) h
service_result-Told service v (some false) known h = put_service-Failing service v known

pub Step-cases : (s : Step) → ((v : Values) × (s ≡ next v)) ⊎ ((o : Outcome) × (s ≡ returned o))
Step-cases (next v) = inl (v, refl)
Step-cases (returned o) = inr (o, refl)

-- The key service names in the loop.
abbrev pub Known : List String → Type 0
Known [] = Unit {0}
Known (s ∷ services) = ((s ≡ "telegram") ⊎ (s ≡ "youtube")) × Known services

module _ {W : Type 0} (calls : Calls W) (timeouts : ℕ × ℕ) (deadline : Option ℕ) where
  pub checks_loop-Told :
      (cs : List Check) (v : Values) (w : W) (o : Outcome)
      → Clean v
      → (checks_loop calls timeouts deadline cs v w).0 ≡ o
      → ToldOutcome o
  unfolding checks_loop
  checks_loop-Told [] v w o h e = subst ToldOutcome e h
  checks_loop-Told (c ∷ cs) v w o h e =
      let tried = urls_loop calls timeouts deadline (targets c) w in
      let told = check_result-Told c v tried.0 h in
      elim (Step-cases (check_result c v tried.0)) [
        | inl (v', n) ↦ checks_loop-Told cs v' tried.1 o (subst ToldStep n told) (ground arith)
        | inr (r, n) ↦ subst ToldOutcome (ground arith) (subst ToldStep n told)
      ]

  pub services_loop-Told :
      (primary : String) (k : Contract) (services : List String) (v : Values) (w : W) (s : Step)
      → Known services
      → Clean v
      → (services_loop calls timeouts deadline primary k services v w).0 ≡ s
      → ToldStep s
  unfolding services_loop
  services_loop-Told primary k [] v w s known h e = subst ToldStep e h
  services_loop-Told primary k (service ∷ services) v w s (here, known) h e =
      elim (Bool-cases (service == primary || not (required service k))) [
        | inl skip ↦ services_loop-Told primary k services v w s known h (ground arith)
        | inr probe ↦
            (let start = budget calls timeouts deadline w in
              elim (Bool-cases start.0) [
                | inr late ↦
                    subst ToldStep
                      {x = returned (record { verdict = none; reason = "budget"; values = v })}
                      (ground arith) h
                | inl early ↦
                    (let r = probe_service calls timeouts deadline service start.1 in
                      let told = service_result-Told service v r.0 here h in
                      elim (Step-cases (service_result service v r.0)) [
                        | inl (v', n) ↦
                            services_loop-Told primary k services v' r.1 s known
                              (subst ToldStep n told) (ground arith)
                        | inr (o, n) ↦
                            subst ToldStep {x = returned o} (ground arith) (subst ToldStep n told)
                      ])
              ])
      ]
