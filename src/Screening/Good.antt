-- ===== src/Screening/Good.antt =====
-- The good results of the services and checks, and what a step of a loop does with them.
use bypass_keenetic.Prelude.{
  Bool, true, false, Option, none, some, String, ◌==◌, List, [], ◌∷◌, ◌≡◌, refl, arith, eq_iff, sym,
  subst,
}
use bypass_keenetic.Prelude.Dict
use bypass_keenetic.Screening.Checks.{
  Check, Contract, Values, Outcome, Tried, passed, failed, unknown, over, next, returned, no_values,
  required, put_service, is_true, service_result, check_result,
}
use bypass_keenetic.Screening.Verdicts.{ToldOutcome, Clean, put_check}

-- The results that are good stay good.
pub record Keeps (v v' : Values) : Type 0 where
  pub tg : v.tg_ok ≡ some (some true) → v'.tg_ok ≡ some (some true)
  pub yt : v.yt_ok ≡ some (some true) → v'.yt_ok ≡ some (some true)
  pub checks : (id : String) → Dict.get id v.custom ≡ some true → Dict.get id v'.custom ≡ some true

pub Keeps-trans : (u v w : Values) → Keeps u v → Keeps v w → Keeps u w
Keeps-trans u v w a b = record {
  tg = λ e. b.tg (a.tg e);
  yt = λ e. b.yt (a.yt e);
  checks = λ id e. b.checks id (a.checks id e);
}

pub Keeps-refl : (v : Values) → Keeps v v
Keeps-refl v = record { tg = λ e. e; yt = λ e. e; checks = λ id e. e }

-- The result of the service of this name is good.
pub record Good (service : String) (v : Values) : Type 0 where
  pub tg : service ≡ "telegram" → v.tg_ok ≡ some (some true)
  pub yt : service ≡ "youtube" → v.yt_ok ≡ some (some true)

-- Each of these services that is required, other than the primary one, has a good result.
abbrev pub GoodServices : String → Contract → List String → Values → Type 0
GoodServices primary k [] v = Unit {0}
GoodServices primary k (s ∷ services) v =
    ((s == primary) ≡ false → required s k ≡ true → Good s v) × GoodServices primary k services v

-- Each of these checks has a good result.
abbrev pub GoodChecks : List Check → Values → Type 0
GoodChecks [] v = Unit {0}
GoodChecks (c ∷ cs) v = (Dict.get c.id v.custom ≡ some true) × GoodChecks cs v

pub put_service-Keeps : (s : String) (v : Values) → Keeps v (put_service s (some true) v)
unfolding put_service
put_service-Keeps s v = record { tg = ground arith; yt = ground arith; checks = ground arith }

pub put_service-Good : (s : String) (v : Values) → Good s (put_service s (some true) v)
unfolding put_service
put_service-Good s v = record {
  tg = λ e. ground (arith, eq_iff s "telegram");
  yt = λ e. subst (λ x. (put_service x (some true) v).yt_ok ≡ some (some true)) (sym e) refl;
}

pub Good-Keeps : (s : String) (v v' : Values) → Keeps v v' → Good s v → Good s v'
Good-Keeps s v v' k g = record { tg = λ e. k.tg (g.tg e); yt = λ e. k.yt (g.yt e) }

pub next_service :
    (s : String) (v v' : Values) (r : Option Bool)
    → service_result s v r ≡ next v'
    → v' ≡ put_service s (some true) v
unfolding service_result is_true
next_service s v v' none e = ground arith
next_service s v v' (some true) e = ground arith
next_service s v v' (some false) e = ground arith

pub next_check :
    (c : Check) (v v' : Values) (t : Tried)
    → check_result c v t ≡ next v'
    → v' ≡ record v { custom = Dict.put c.id true v.custom }
unfolding check_result
next_check c v v' passed e = ground arith
next_check c v v' failed e = ground arith
next_check c v v' unknown e = ground arith
next_check c v v' over e = ground arith

pub returned_check :
    (c : Check) (v : Values) (o : Outcome) (t : Tried)
    → check_result c v t ≡ returned o
    → o.verdict ≡ some true
    → ⊥
unfolding check_result
returned_check c v o passed e h = ground arith
returned_check c v o failed e h = ground arith
returned_check c v o unknown e h = ground arith
returned_check c v o over e h = ground arith

pub returned_service :
    (s : String) (v : Values) (o : Outcome) (r : Option Bool)
    → service_result s v r ≡ returned o
    → o.verdict ≡ some true
    → ⊥
unfolding service_result is_true
returned_service s v o none e h = ground arith
returned_service s v o (some true) e h = ground arith
returned_service s v o (some false) e h = ground arith

pub put_check-Keeps :
    (c : Check) (v : Values) → Keeps v (record v { custom = Dict.put c.id true v.custom })
put_check-Keeps c v = record {
  tg = λ e. e;
  yt = λ e. e;
  checks = λ id e. ground (arith, put_check c true v id);
}

-- What the verdict says of the results.
abbrev pub Explained : String → Contract → Outcome → Type 0
Explained primary k o =
    ToldOutcome o
    × (o.verdict ≡ some true
        → GoodServices primary k ("telegram" ∷ "youtube" ∷ []) o.values
          × GoodChecks k.custom o.values)

pub no_values-Clean : Clean no_values
unfolding no_values Dict.get
no_values-Clean = record { tg = ground arith; yt = ground arith; checks = λ id e. ground arith }
