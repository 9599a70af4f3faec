-- ===== src/KeyPool/Candidates/Probe.antt =====
-- `probe_score`: what the cache of checks says of a key. A number of the cache is a natural number; where
-- `int` raises, a time is 0 and a score is `none`. Of the error rate the code reads whether it is positive
-- and two products, rounded.
use bypass_keenetic.Prelude.{
  ℕ, Bool, true, false, not, ◌&&◌, Option, none, some, List, String, ◌==◌, if◌then◌else◌, ltb, ◌-◌,
}
use bypass_keenetic.Prelude.Text.{strip}
use bypass_keenetic.Prelude.Dict
use bypass_keenetic.Prelude.Dict.{Dict}
use bypass_keenetic.Switch.Letters.{lower}

pub record ErrorRate : Type 0 where
  pub is_positive : Bool
  -- `int(round(error_rate * 100))`, `int(round(error_rate * 40))`
  pub times_100 : ℕ
  pub times_40 : ℕ

-- An entry of the cache; an answer is `none` where it is neither `True` nor `False`.
pub record Probe : Type 0 where
  pub ts : ℕ
  pub tg_ok : Option Bool
  pub yt_ok : Option Bool
  pub yt_score : Option ℕ
  pub yt_stability : String
  pub yt_error_rate : ErrorRate

-- `{}`
abbrev pub no_probe : Probe
no_probe = record {
  ts = 0;
  tg_ok = none;
  yt_ok = none;
  yt_score = none;
  yt_stability = "";
  yt_error_rate = record { is_positive = false; times_100 = 0; times_40 = 0 };
}

-- The arguments that the score depends on.
pub record Query : Type 0 where
  pub service : String
  pub key_probe_cache : Dict Probe
  pub hash_key : Option (String → String)
  pub exclude_keys : List String
  pub recent_failure_backoff_seconds : ℕ
  pub skip_failed : Bool
  pub now : ℕ

-- `key_probe_cache.get(hash_key(key_value), {})`, and `{}` without a cache or a hash.
unfoldable pub probe_of : Query → String → Probe
probe_of q key = elim q.hash_key [
  | none ↦ no_probe
  | some hash ↦ Dict.get_or (hash key) no_probe q.key_probe_cache
]

-- `probe.get(field) is True` chooses the first, `is False` the second, anything else the third.
unfoldable pub by_answer : Option Bool → ℕ → ℕ → ℕ → ℕ
by_answer (some true) good bad unknown = good
by_answer (some false) good bad unknown = bad
by_answer none good bad unknown = unknown

unfoldable pub minimum : ℕ → ℕ → ℕ
minimum a b = if ltb b a then b else a

unfoldable pub stable_score : String → ℕ → ℕ
stable_score stability score =
    if stability == "unstable" then minimum score 65 else if stability == "fail" then 0 else score

-- `max(0, score - n)` is the subtraction that stops at 0.
unfoldable pub less_errors : String → ErrorRate → ℕ → ℕ
less_errors stability rate score =
    if rate.is_positive && stability == "unstable"
    then score - rate.times_100
    else if rate.is_positive
    then score - minimum 10 rate.times_40
    else score

unfoldable pub youtube_score : Probe → ℕ
youtube_score probe =
    let base : ℕ = elim probe.yt_score [ some n ↦ n | none ↦ by_answer probe.yt_ok 60 0 30 ] in
    let stability = lower (strip probe.yt_stability) in
    less_errors stability probe.yt_error_rate (stable_score stability base)

unfoldable pub is_false : Option Bool → Bool
is_false (some false) = true
is_false (some true) = false
is_false none = false

-- The three results of `probe_score`.
unfoldable pub score_of : Query → String → ℕ
score_of q key =
    if q.service == "route"
    then 2
    else if q.service == "youtube"
    then youtube_score (probe_of q key)
    else by_answer (probe_of q key).tg_ok 3 1 2

unfoldable pub checked_ts : Query → String → ℕ
checked_ts q key = if q.service == "route" then 0 else (probe_of q key).ts

unfoldable pub recently_failed : Query → String → Bool
recently_failed q key =
    let probe = probe_of q key in
    not (q.service == "route")
    && (not (q.service == "youtube")
        && (is_false probe.tg_ok
            && (ltb 0 q.recent_failure_backoff_seconds
                && (ltb 0 probe.ts
                    && (ltb 0 q.now && ltb (q.now - probe.ts) q.recent_failure_backoff_seconds)))))
