-- ===== src/Screening/Passing.antt =====
-- A verdict of True stands for good results of everything that the contract requires.
use bypass_keenetic.Prelude.{
  ℕ, true, ◌||◌, not, Option, some, String, ◌==◌, List, [], ◌∷◌, ◌≡◌, inl, inr, refl, arith, eq_iff,
  Bool-cases, ap, sym, subst,
}
use bypass_keenetic.Prelude.Dict
use bypass_keenetic.Screening.Checks.{
  Check, Contract, Values, Outcome, Calls, next, returned, no_values, required, service_result,
  check_result, budget, probe_service, services_loop, targets, urls_loop, checks_loop,
  check_required,
}
use bypass_keenetic.Screening.Verdicts.{
  Known, Step-cases, put_check, services_loop-Told, checks_loop-Told,
}
use bypass_keenetic.Screening.Good.{
  Keeps-trans, Keeps-refl, put_service-Keeps, put_service-Good, Good-Keeps, next_service,
  next_check, returned_check, returned_service, put_check-Keeps, no_values-Clean, Keeps, Good,
  GoodServices, GoodChecks, Explained,
}

module _ {W : Type 0} (calls : Calls W) (timeouts : ℕ × ℕ) (deadline : Option ℕ) where
  services_loop-Good :
      (primary : String) (k : Contract) (services : List String) (v : Values) (w : W) (v' : Values)
      → (services_loop calls timeouts deadline primary k services v w).0 ≡ next v'
      → Keeps v v' × GoodServices primary k services v'
  unfolding services_loop
  services_loop-Good primary k [] v w v' e = (subst (Keeps v) (ground arith) (Keeps-refl v), tt)
  services_loop-Good primary k (service ∷ services) v w v' e =
      elim (Bool-cases (service == primary || not (required service k))) [
        | inl skip ↦
            (let (kept, good) = services_loop-Good primary k services v w v' (ground arith) in
              (kept, ((λ other needed. absurd (ground arith)), good)))
        | inr probe ↦
            (let start = budget calls timeouts deadline w in
              let r = probe_service calls timeouts deadline service start.1 in
              elim (Bool-cases start.0) [
                | inr late ↦ absurd (ground arith)
                | inl early ↦ elim (Step-cases (service_result service v r.0)) [
                  | inr (o, n) ↦ absurd (ground arith)
                  | inl (u, n) ↦
                      (let (kept, good) =
                          services_loop-Good primary k services u r.1 v' (ground arith) in
                        let put = sym (next_service service v u r.0 n) in
                        (
                          Keeps-trans v u v' (subst (Keeps v) put (put_service-Keeps service v))
                              kept,
                          (
                            (λ other needed.
                                Good-Keeps service u v' kept
                                  (subst (Good service) put (put_service-Good service v))),
                            good,
                          ),
                        ))
                ]
              ])
      ]

  checks_loop-Good :
      (cs : List Check) (v : Values) (w : W) (o : Outcome)
      → (checks_loop calls timeouts deadline cs v w).0 ≡ o
      → o.verdict ≡ some true
      → Keeps v o.values × GoodChecks cs o.values
  unfolding checks_loop
  checks_loop-Good [] v w o e t = (subst (Keeps v) (ap (λ x. x.values) e) (Keeps-refl v), tt)
  checks_loop-Good (c ∷ cs) v w o e t =
      let tried = urls_loop calls timeouts deadline (targets c) w in
      elim (Step-cases (check_result c v tried.0)) [
        | inr (r, n) ↦ absurd (returned_check c v r tried.0 n (ground arith))
        | inl (u, n) ↦
            (let (kept, good) = checks_loop-Good cs u tried.1 o (ground arith) t in
              let put = sym (next_check c v u tried.0 n) in
              (
                Keeps-trans v u o.values (subst (Keeps v) put (put_check-Keeps c v)) kept,
                (
                  kept.checks c.id (
                      subst (λ x. Dict.get c.id x.custom ≡ some true) put
                        (ground (arith, put_check c true v c.id, eq_iff c.id c.id))),
                  good,
                ),
              ))
      ]

  services_loop_refuses :
      (primary : String) (k : Contract) (services : List String) (v : Values) (w : W) (o : Outcome)
      → (services_loop calls timeouts deadline primary k services v w).0 ≡ returned o
      → o.verdict ≡ some true
      → ⊥
  unfolding services_loop
  services_loop_refuses primary k [] v w o e t = ground arith
  services_loop_refuses primary k (service ∷ services) v w o e t =
      elim (Bool-cases (service == primary || not (required service k))) [
        | inl skip ↦ services_loop_refuses primary k services v w o (ground arith) t
        | inr probe ↦
            (let start = budget calls timeouts deadline w in
              let r = probe_service calls timeouts deadline service start.1 in
              elim (Bool-cases start.0) [
                | inr late ↦ ground arith
                | inl early ↦ elim (Step-cases (service_result service v r.0)) [
                  | inr (o', n) ↦ returned_service service v o' r.0 n (ground arith)
                  | inl (u, n) ↦ services_loop_refuses primary k services u r.1 o (ground arith) t
                ]
              ])
      ]

  GoodServices-Keeps :
      (primary : String) (k : Contract) (services : List String) (v v' : Values)
      → Keeps v v'
      → GoodServices primary k services v
      → GoodServices primary k services v'
  GoodServices-Keeps primary k [] v v' kept good = tt
  GoodServices-Keeps primary k (s ∷ services) v v' kept (good, rest) = (
    (λ other needed. Good-Keeps s v v' kept (good other needed)),
    GoodServices-Keeps primary k services v v' kept rest,
  )

  -- The same of any outcome that the function is known to give.
  pub outcome-Explained :
      (primary : String) (k : Contract) (w : W) (o : Outcome)
      → (check_required calls timeouts deadline primary k w).0 ≡ o
      → Explained primary k o
  unfolding check_required
  outcome-Explained primary k w o e =
      let both : List String = "telegram" ∷ "youtube" ∷ [] in
      let first = services_loop calls timeouts deadline primary k both no_values w in
      let known : Known both = (inl refl, (inr refl, tt)) in
      elim (Step-cases first.0) [
        | inr (r, n) ↦
            (let same : r ≡ o = ground arith in
              subst (Explained primary k) same (
                services_loop-Told calls timeouts deadline primary k both no_values w (returned r)
                    known no_values-Clean n,
                λ t. absurd (services_loop_refuses primary k both no_values w r n t),
              ))
        | inl (v, n) ↦
            (let rest : (checks_loop calls timeouts deadline k.custom v first.1).0 ≡ o =
                ground arith in
              let clean =
                services_loop-Told calls timeouts deadline primary k both no_values w (next v) known
                  no_values-Clean n in
              let (kept, good) = services_loop-Good primary k both no_values w v n in
              (
                checks_loop-Told calls timeouts deadline k.custom v first.1 o clean rest,
                λ t.
                    (let (more, checked) = checks_loop-Good k.custom v first.1 o rest t in
                      (GoodServices-Keeps primary k both v o.values more good, checked)),
              ))
      ]

  -- `check_required`: if it returns True, each service that the contract requires, other than the primary
  -- one, and each of its custom checks has a good result, and no result is a failure; if it returns False,
  -- the result of the service or check that it names is a failure; if it returns None, no result is a failure.
  pub check_required-Explained :
      (primary : String) (k : Contract) (w : W)
      → Explained primary k (check_required calls timeouts deadline primary k w).0
  check_required-Explained primary k w =
      outcome-Explained primary k w (check_required calls timeouts deadline primary k w).0 refl
