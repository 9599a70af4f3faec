-- ===== src/Failover/Watchdog.antt =====
-- `required_route_recovery`. Times are whole seconds. What the four injected calls return, or that
-- they raise, is given by a `Tick`; the calls made are listed in their order.
use bypass_keenetic.Prelude.{
  ℕ, suc, ◌+◌, Bool, true, false, not, ◌||◌, Option, none, some, List, [], ◌∷◌, ◌++◌, String, ◌==◌,
  if◌then◌else◌, ltb, Result, ok, raise,
}

-- The dict `state`. A key that is not there is `none`, or 0 where the code reads it with 0.
pub record State : Type 0 where
  pub identity : Option String
  pub failures : ℕ
  pub retry_at : ℕ
  pub cooldown_until : ℕ
  pub failure_service : Option String
  pub first_failure_at : Option ℕ

abbrev pub empty_state : State
empty_state = record {
  identity = none;
  failures = 0;
  retry_at = 0;
  cooldown_until = 0;
  failure_service = none;
  first_failure_at = none;
}

-- What `check_active` returns: a verdict, or a dict with one and perhaps a service.
pub data Evidence : Type 0 where
  verdict_only : Option Bool → Evidence
  report : Option Bool → Option String → Evidence

unfoldable pub verdict : Evidence → Option Bool
verdict (verdict_only v) = v
verdict (report v s) = v

unfoldable pub service : Evidence → String
service (verdict_only v) = "route"
service (report v none) = ""
service (report v (some s)) = s

-- `verdict is False`
unfoldable pub is_false : Option Bool → Bool
is_false none = false
is_false (some b) = not b

pub data Call (C : Type 0) : Type 0 where
  checked selected : Call C
  validated applied : C → Call C

pub data CallError : Type 0 where
  call_error : CallError

-- One call of `required_route_recovery`: its arguments.
pub record Tick (C : Type 0) : Type 0 where
  pub key_identity : String
  pub now : ℕ
  pub cooldown : ℕ
  pub check_active : Result CallError Evidence
  pub select_candidate : Result CallError (Option C)
  pub still_valid : C → Result CallError Bool
  pub apply_candidate : C → Result CallError (Unit {0})

-- `state.get(key) != value`
unfoldable pub differs : Option String → String → Bool
differs none value = true
differs (some old) value = not (old == value)

-- The first test, with what it makes of the state.
unfoldable pub for_identity : String → State → State
for_identity id s =
    if differs s.identity id
    then record {
      identity = some id;
      failures = 0;
      retry_at = s.cooldown_until;
      cooldown_until = s.cooldown_until;
      failure_service = none;
      first_failure_at = none;
    }
    else s

-- `now - state.get('first_failure_at', now) > 300`
unfoldable pub expired : ℕ → Option ℕ → Bool
expired now none = false
expired now (some first) = ltb (first + 300) now

-- The failures after one more failing check.
unfoldable pub count_failure : ℕ → String → State → State
count_failure now svc s =
    let t =
      if differs s.failure_service svc || expired now s.first_failure_at
      then record s { failures = 0; first_failure_at = some now; failure_service = some svc }
      else s in
    record t { failures = suc t.failures }

-- The state after, the calls made, and the result.
abbrev pub Answer : Type 0 → Type 0
Answer C = State × List (Call C) × Result CallError Bool

module _ {C : Type 0} where
  unfoldable pub try_apply : C → Result CallError (Unit {0}) → List (Call C) → State → Answer C
  try_apply c (raise e) calls s = (s, calls ++ applied c ∷ [], raise e)
  try_apply c (ok _) calls s = (record s { failures = 0 }, calls ++ applied c ∷ [], ok true)

  unfoldable pub try_valid : Tick C → C → Result CallError Bool → State → Answer C
  unfolding try_apply
  try_valid t c (raise e) s = (s, checked ∷ selected ∷ validated c ∷ [], raise e)
  try_valid t c (ok false) s = (s, checked ∷ selected ∷ validated c ∷ [], ok false)
  try_valid t c (ok true) s =
      try_apply c (t.apply_candidate c) (checked ∷ selected ∷ validated c ∷ []) s

  unfoldable pub try_candidate : Tick C → Result CallError (Option C) → State → Answer C
  unfolding try_valid
  try_candidate t (raise e) s = (s, checked ∷ selected ∷ [], raise e)
  try_candidate t (ok none) s = (s, checked ∷ selected ∷ [], ok false)
  try_candidate t (ok (some c)) s = try_valid t c (t.still_valid c) s

  -- What follows `check_active()`.
  unfoldable pub on_evidence : Tick C → Result CallError Evidence → State → Answer C
  unfolding try_candidate count_failure
  on_evidence t (raise e) s = (s, checked ∷ [], raise e)
  on_evidence t (ok ev) s =
      let s' = count_failure t.now (service ev) s in
      let until = t.now + t.cooldown in
      if not (is_false (verdict ev))
      then (record s { failures = 0; failure_service = some "" }, checked ∷ [], ok false)
      else if ltb s'.failures 3
      then (s', checked ∷ [], ok false)
      else try_candidate t t.select_candidate
          (record s' { retry_at = until; cooldown_until = until })

  unfoldable pub required_route_recovery : Tick C → State → Answer C
  unfolding on_evidence for_identity
  required_route_recovery t s =
      let s' = for_identity t.key_identity s in
      if ltb t.now s'.retry_at
      then (s', [], ok false)
      else on_evidence t t.check_active (record s' { retry_at = t.now + 60 })

  -- The calls of the watchdog one after another: the state at the end, and all calls made.
  unfoldable pub watch : List (Tick C) → State → State × List (Call C)
  unfolding required_route_recovery
  watch [] s = (s, [])
  watch (t ∷ ts) s =
      let (s', calls, r) = required_route_recovery t s in
      let (s'', more) = watch ts s' in (s'', calls ++ more)
