-- ===== src/Events/Duration.antt =====
-- `estimate_update_duration` over the events that `load_events` returns, from the oldest on. `lower` is `str.lower`;
-- an event without a usable time has the time 0.
use bypass_keenetic.Prelude.{
  ℕ, zero, suc, ◌+◌, ◌-◌, ◌/◌, ◌%◌, Bool, ◌&&◌, ◌||◌, not, String, ◌==◌, if◌then◌else◌, ltb, leb,
  ◌=ℕ◌, List, [], ◌∷◌, ◌++◌, length, any,
}
use bypass_keenetic.Routes.Strings.{contains}
use bypass_keenetic.Events.Log.{Event, last_of}

-- The keyword arguments.
pub record Expected : Type 0 where
  pub command : String
  pub default_seconds : ℕ
  pub min_seconds : ℕ
  pub max_seconds : ℕ
  pub min_samples : ℕ

unfoldable pub failure_markers : List String
failure_markers =
    "error:" ∷ " failed" ∷ "failed " ∷ "traceback" ∷ "return_code=1" ∷ "command exited with code 1"
    ∷ "команда завершилась с кодом 1" ∷ "ошибка" ∷ []

unfoldable pub insert_seconds : ℕ → List ℕ → List ℕ
insert_seconds n [] = n ∷ []
insert_seconds n (m ∷ ms) =
    let rest = insert_seconds n ms in if leb n m then n ∷ m ∷ ms else m ∷ rest

-- `sorted`
unfoldable pub sorted : List ℕ → List ℕ
sorted [] = []
sorted (n ∷ ns) = insert_seconds n (sorted ns)

-- `ordered[i]`
unfoldable pub item : ℕ → List ℕ → ℕ
item i [] = 0
item zero (n ∷ ns) = n
item (suc i) (n ∷ ns) = item i ns

-- `int(round(sum / 2.0))`, which rounds a half to an even number.
unfoldable pub half : ℕ → ℕ
half n = if n % 2 =ℕ 0 || n / 2 % 2 =ℕ 0 then n / 2 else n / 2 + 1

unfoldable pub median_seconds : List ℕ → ℕ
median_seconds values =
    let ordered = sorted values in
    let count = length ordered in
    let middle = count / 2 in
    if count =ℕ 0
    then 0
    else if count % 2 =ℕ 1
    then item middle ordered
    else half (item (middle - 1) ordered + item middle ordered)

-- `xs[:-1]`
unfoldable pub without_last : List ℕ → List ℕ
without_last [] = []
without_last (n ∷ []) = []
without_last (n ∷ m ∷ ns) = n ∷ without_last (m ∷ ns)

-- `xs[1:]`
unfoldable pub without_first : List ℕ → List ℕ
without_first [] = []
without_first (n ∷ ns) = ns

-- What follows the loop: the estimate and the number of samples.
unfoldable pub estimate : Expected → List ℕ → ℕ × ℕ
estimate x durations =
    let recent = last_of 8 durations in
    let count = length durations in
    if count =ℕ 0
    then (x.default_seconds, 0)
    else if ltb count (if x.min_samples =ℕ 0 then 1 else x.min_samples)
    then (x.default_seconds, count)
    else if leb 5 (length recent)
    then (median_seconds (without_last (without_first (sorted recent))), count)
    else (median_seconds recent, count)

module _ (lower : String → String) where
  unfoldable pub web_update_finish_failed : Event → Bool
  web_update_finish_failed e = any (λ marker. contains marker (lower e.message)) failure_markers

  -- A finished update of a length that counts.
  unfoldable pub counts : Expected → ℕ → Event → Bool
  counts x start e =
      leb start e.ts
      && ((leb x.min_seconds (e.ts - start) && leb (e.ts - start) x.max_seconds)
          && not (web_update_finish_failed e))

  -- The body of the loop over the events: `current_start`, which is 0 for None, and the durations.
  unfoldable pub loop_step : Expected → ℕ → List ℕ → Event → ℕ × List ℕ
  loop_step x start found e =
      if not (e.source == "web") || (not (e.service == x.command) || e.ts =ℕ 0)
      then (start, found)
      else if e.action == "web_command_start"
      then (e.ts, found)
      else if e.action == "web_command_finish" && not (start =ℕ 0)
      then (0, if counts x start e then found ++ ((e.ts - start) ∷ []) else found)
      else (start, found)

  unfoldable pub durations_of : Expected → ℕ → List ℕ → List Event → List ℕ
  durations_of x start found [] = found
  durations_of x start found (e ∷ events) =
      let after = loop_step x start found e in durations_of x after.0 after.1 events

  unfoldable pub estimate_update_duration : Expected → List Event → ℕ × ℕ
  estimate_update_duration x events = estimate x (durations_of x 0 [] events)
