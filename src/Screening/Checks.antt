-- ===== src/Screening/Checks.antt =====
-- `check_required` of app/failover_services.py. The calls that it is given, the probe of YouTube and the clock are
-- fields of `Calls`, over a state `W` of the outside. A time is a natural number of milliseconds; the half of an
-- odd number is rounded down.
use bypass_keenetic.Prelude.{
  ℕ, zero, suc, ◌+◌, ◌-◌, ◌/◌, min, max, Bool, true, false, ◌||◌, not, Option, none, some, String,
  ◌==◌, if◌then◌else◌, ltb, List, [], ◌∷◌,
}
use bypass_keenetic.Prelude.Dict
use bypass_keenetic.Prelude.Dict.{Dict}

pub record Check : Type 0 where
  pub id : String
  pub url : String
  pub urls : Option (List String)

pub record Contract : Type 0 where
  pub telegram : Bool
  pub youtube : Bool
  pub custom : List Check
  pub legacy_signature : Option String
  pub legacy_checks : Dict String

-- `tg_ok` and `yt_ok` are `none` while the key is missing.
pub record Values : Type 0 where
  pub tg_ok : Option (Option Bool)
  pub yt_ok : Option (Option Bool)
  pub custom : Dict Bool

-- The verdict, the service or check that it names, and the results.
pub record Outcome : Type 0 where
  pub verdict : Option Bool
  pub reason : String
  pub values : Values

-- The calls with a connect and a read timeout; a custom check also returns its message.
pub record Calls (W : Type 0) : Type 0 where
  pub clock : W → ℕ × W
  pub check_telegram : ℕ → ℕ → W → Option Bool × W
  pub check_youtube : ℕ → ℕ → W → Option Bool × W
  pub check_custom : String → ℕ → ℕ → W → (Option Bool × String) × W
  pub is_transient_status_text : String → Bool

-- What the loops over the attempts and the URLs of a check come to.
pub data Tried : Type 0 where
  passed failed unknown over : Tried

-- A step of a loop, which goes on with these results or returns.
pub data Step : Type 0 where
  next : Values → Step
  returned : Outcome → Step

unfoldable pub no_values : Values
no_values = record { tg_ok = none; yt_ok = none; custom = [] }

-- `check.get('urls') or [check['url']]`
unfoldable pub targets : Check → List String
targets c = elim c.urls [ some (u ∷ us) ↦ u ∷ us | _ ↦ c.url ∷ [] ]

-- `contract.get(service)`
unfoldable pub required : String → Contract → Bool
required service k =
    if service == "telegram" then k.telegram else if service == "youtube" then k.youtube else false

-- `values[...] = ok`
unfoldable pub put_service : String → Option Bool → Values → Values
put_service service r v =
    if service == "telegram" then record v { tg_ok = some r } else record v { yt_ok = some r }

unfoldable pub is_true : Option Bool → Bool
is_true (some true) = true
is_true _ = false

-- What follows the call of a service.
unfoldable pub service_result : String → Values → Option Bool → Step
service_result service v result =
    let v' = put_service service result v in
    if is_true result
    then next v'
    else returned (record { verdict = result; reason = service; values = v' })

-- What follows the loop over the URLs of a check.
unfoldable pub check_result : Check → Values → Tried → Step
check_result c v passed = next (record v { custom = Dict.put c.id true v.custom })
check_result c v failed = returned (record {
  verdict = some false;
  reason = c.id;
  values = record v { custom = Dict.put c.id false v.custom };
})
check_result c v unknown = returned (record { verdict = none; reason = c.id; values = v })
check_result c v over = returned (record { verdict = none; reason = "budget"; values = v })

module _ {W : Type 0} (calls : Calls W) (timeouts : ℕ × ℕ) (deadline : Option ℕ) where
  unfoldable pub budget : W → Bool × W
  budget w = elim deadline [
    | none ↦ (true, w)
    | some d ↦ (let now = calls.clock w in (ltb now.0 d, now.1))
  ]

  -- `remaining` of `limits`
  unfoldable pub remaining : W → ℕ × W
  remaining w = elim deadline [
    | none ↦ (timeouts.0 + timeouts.1, w)
    | some d ↦ (let now = calls.clock w in (max 200 (d - now.0), now.1))
  ]

  unfoldable pub limits : W → (ℕ × ℕ) × W
  limits w =
      let rest = remaining w in ((min timeouts.0 (rest.0 / 2), min timeouts.1 (rest.0 / 2)), rest.1)

  unfoldable pub probe_service : String → W → Option Bool × W
  probe_service service w =
      let limit = limits w in
      if service == "telegram"
      then calls.check_telegram limit.0.0 limit.0.1 limit.1
      else calls.check_youtube limit.0.0 limit.0.1 limit.1

  -- The loop over the services that are still to come.
  unfoldable pub services_loop : String → Contract → List String → Values → W → Step × W
  services_loop primary k [] v w = (next v, w)
  services_loop primary k (service ∷ services) v w =
      elim (service == primary || not (required service k)) [
        | true ↦ services_loop primary k services v w
        | false ↦
            (let start = budget w in
              elim start.0 [
                | false ↦
                    (returned (record { verdict = none; reason = "budget"; values = v }), start.1)
                | true ↦
                    (let result = probe_service service start.1 in
                      elim (service_result service v result.0) [
                        | next v' ↦ services_loop primary k services v' result.1
                        | returned o ↦ (returned o, result.1)
                      ])
              ])
      ]

  -- What the loop does with the result of an attempt: return or break, or go on.
  unfoldable pub attempt_result : Bool → Option Bool → String → Option Tried
  attempt_result later none message = some unknown
  attempt_result later (some true) message = some passed
  attempt_result later (some false) message =
      if later || not (calls.is_transient_status_text message) then some failed else none

  -- `for attempt in range(2)`, with this many attempts left; `later` is `attempt` as a truth value.
  unfoldable pub attempts : ℕ → Bool → String → W → Tried × W
  attempts zero later url w = (failed, w)
  attempts (suc n) later url w =
      let start = budget w in
      elim start.0 [
        | false ↦ (over, start.1)
        | true ↦
            (let limit = limits start.1 in
              let result = calls.check_custom url limit.0.0 limit.0.1 limit.1 in
              elim (attempt_result later result.0.0 result.0.1) [
                | some t ↦ (t, result.1)
                | none ↦ attempts n true url result.1
              ])
      ]

  -- The loop over the URLs of a check.
  unfoldable pub urls_loop : List String → W → Tried × W
  urls_loop [] w = (failed, w)
  urls_loop (url ∷ urls) w =
      let tried = attempts 2 false url w in
      elim tried.0 [ failed ↦ urls_loop urls tried.1 | t ↦ (t, tried.1) ]

  -- The loop over the custom checks and the end of the function.
  unfoldable pub checks_loop : List Check → Values → W → Outcome × W
  checks_loop [] v w = (record { verdict = some true; reason = ""; values = v }, w)
  checks_loop (c ∷ cs) v w =
      let tried = urls_loop (targets c) w in
      elim (check_result c v tried.0) [
        | next v' ↦ checks_loop cs v' tried.1
        | returned o ↦ (o, tried.1)
      ]

  unfoldable pub check_required : String → Contract → W → Outcome × W
  check_required primary k w =
      let first = services_loop primary k ("telegram" ∷ "youtube" ∷ []) no_values w in
      elim first.0 [ returned o ↦ (o, first.1) | next v ↦ checks_loop k.custom v first.1 ]
