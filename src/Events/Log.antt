-- ===== src/Events/Log.antt =====
-- `record_event`, from the test of the action on, with `_event_is_recent_duplicate` and `_trim_history`, for one
-- path. `dumps` is `json.dumps` of a value, `size` the size of a file with these lines.
use bypass_keenetic.Prelude.{
  ℕ, ◌+◌, ◌-◌, ◌*◌, ◌%◌, Bool, true, false, ◌&&◌, ◌||◌, not, Option, none, some, String,
  if◌then◌else◌, ltb, leb, ◌=ℕ◌, List, [], ◌∷◌, ◌++◌, length, drop,
}
use bypass_keenetic.Prelude.Dict
use bypass_keenetic.Prelude.Dict.{Dict}
use bypass_keenetic.KeyPool.Catalog.{mem}
use bypass_keenetic.Plan.Json.{Value, text, obj, Pairs, no_pair, pair, canonical}

pub record Event : Type 0 where
  pub ts : ℕ
  pub level : String
  pub action : String
  pub source : String
  pub protocol : String
  pub service : String
  pub key_hash : String
  pub message : String
  pub details : Pairs

-- A line that is not blank: an event, or text that is no JSON or no object.
pub data Line : Type 0 where
  event : Event → Line
  broken : String → Line

-- The file, `_trim_write_counts[path]` and `_recent_event_fingerprints`; a missing file is `none`.
pub record History : Type 0 where
  pub file : Option (List Line)
  pub writes : ℕ
  pub recent : Dict ℕ

-- Which operations on files work in a call.
pub record Working : Type 0 where
  pub appends : Bool
  pub reads : Bool
  pub replaces : Bool

-- The constants of the module.
unfoldable pub never_deduplicate_actions : List String
never_deduplicate_actions = "key_switch" ∷ "key_switch_auto" ∷ []

unfoldable pub technical_recovery_actions : List String
technical_recovery_actions =
    "failover_service_check" ∷ "auto_failover" ∷ "auto_failover_confirm_fail" ∷ "auto_failover_skip"
    ∷ "auto_failover_switch" ∷ "auto_failover_guard_bypass" ∷ "stream_guard_defer" ∷ []

unfoldable pub recovery_restore_sources : List String
recovery_restore_sources = "youtube_failover_restore" ∷ "telegram_failover_restore" ∷ []

unfoldable pub technical_recovery_event : String → String → Bool
technical_recovery_event action source =
    mem action technical_recovery_actions
    || (mem action never_deduplicate_actions && mem source recovery_restore_sources)

-- `xs[-n:]`
unfoldable pub last_of {ℓ} : {A : Type ℓ} → ℕ → List A → List A
last_of n xs = drop (length xs - n) xs

-- `pop(next(iter(...)))` if there are more than MAX_RECENT_EVENT_FINGERPRINTS.
unfoldable pub forget_oldest : Dict ℕ → Dict ℕ
forget_oldest [] = []
forget_oldest (x ∷ d) = if ltb 128 (length (x ∷ d)) then d else x ∷ d

-- `max(1, int(max_events or MAX_EVENTS))`
unfoldable pub limit_of : ℕ → ℕ
limit_of n = if n =ℕ 0 then 120 else n

-- `retained`
unfoldable pub retained : List Line → List Line
retained [] = []
retained (broken t ∷ ls) = retained ls
retained (event e ∷ ls) =
    let rest = retained ls in
    if technical_recovery_event e.action e.source then rest else event e ∷ rest

-- The part of `_trim_history` that reads the file.
unfoldable pub rewrite : Working → ℕ → History → History
rewrite works max_events h = elim h.file [
  | none ↦ h
  | some ls ↦
      (let kept = retained ls in
        if not works.reads || (length kept =ℕ length ls && leb (length ls) (limit_of max_events))
        then h
        else record h {
          writes = 0;
          file = some (if works.replaces then last_of (limit_of max_events) kept else ls);
        })
]

-- The lines of a file that may be missing.
unfoldable pub lines_of : Option (List Line) → List Line
lines_of none = []
lines_of (some ls) = ls

module _ (dumps : Value → String) (size : List Line → ℕ) where
  unfoldable pub event_fingerprint : Event → String
  event_fingerprint e = dumps (
      canonical (
        obj (
          pair "action" (text e.action) (
            pair "level" (text e.level) (
              pair "source" (text e.source) (
                pair "protocol" (text e.protocol) (
                  pair "service" (text e.service) (
                    pair "key_hash" (text e.key_hash) (
                      pair "message" (text e.message)
                        (pair "details" (obj e.details) no_pair))))))))))

  unfoldable pub event_is_recent_duplicate : Event → ℕ → History → Bool × History
  event_is_recent_duplicate e window h =
      if window =ℕ 0 || mem e.action never_deduplicate_actions
      then (false, h)
      else (let key = event_fingerprint e in
          (
            elim (Dict.get key h.recent) [
              | none ↦ false
              | some previous ↦ leb previous e.ts && ltb (e.ts - previous) window
            ],
            record h { recent = forget_oldest (Dict.put key e.ts h.recent) },
          ))

  -- `_trim_history(path, max_events)`
  unfoldable pub trim_history : Working → ℕ → History → History
  trim_history works max_events h =
      let n = h.writes + 1 in
      let file_size : ℕ = elim h.file [ none ↦ 0 | some ls ↦ size ls ] in
      if not (n % 10 =ℕ 0) && ltb file_size (96 * 1024)
      then record h { writes = n }
      else rewrite works max_events (record h { writes = n })

  -- What `record_event` returns, and the history after.
  unfoldable pub record_event : Working → ℕ → ℕ → Event → History → Bool × History
  record_event works max_events dedupe_seconds e h =
      if technical_recovery_event e.action e.source
      then (true, h)
      else (let duplicate = event_is_recent_duplicate e dedupe_seconds h in
          if duplicate.0
          then (true, duplicate.1)
          else if not works.appends
          then (false, duplicate.1)
          else (
            true,
            trim_history works max_events
                (record duplicate.1 { file = some (lines_of h.file ++ (event e ∷ [])) }),
          ))
