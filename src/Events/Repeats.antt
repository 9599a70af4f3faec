-- ===== src/Events/Repeats.antt =====
-- A repetition of an event is not written.
use bypass_keenetic.Prelude.{
  ℕ, ◌+◌, ◌≤◌, ◌<◌, true, false, some, String, ◌=ℕ◌, List, [], ◌∷◌, length, ◌++◌, ◌≡◌, refl, ap,
  ◌∙◌, arith, eq_iff, Bool-cases, Option-cases, inl, inr,
}
use bypass_keenetic.Prelude.Dict
use bypass_keenetic.Prelude.Dict.{Dict}
use bypass_keenetic.KeyPool.Catalog.{mem}
use bypass_keenetic.Plan.Json.{Value}
use bypass_keenetic.Events.Log.{
  Event, Line, event, History, Working, never_deduplicate_actions, technical_recovery_event,
  forget_oldest, event_fingerprint, event_is_recent_duplicate, rewrite, trim_history, lines_of,
  record_event,
}

get-forget_oldest :
    (k : String) (n : ℕ) (d : Dict ℕ)
    → length d ≤ 128
    → Dict.get k (forget_oldest (Dict.put k n d)) ≡ some n
unfolding forget_oldest Dict.put Dict.get
get-forget_oldest k n [] h = ground (arith, eq_iff k k)
get-forget_oldest k n ((j, m) ∷ d) h = ground (arith, eq_iff j k, Dict.get-put k k n d, eq_iff k k)

rewrite_recent :
    (works : Working) (max_events : ℕ) (h : History)
    → (rewrite works max_events h).recent ≡ h.recent
unfolding rewrite
rewrite_recent works max_events h = elim (Option-cases h.file) [
  | inl missing ↦ ground arith
  | inr (ls, f) ↦ ground arith
]

module _ (dumps : Value → String) (size : List Line → ℕ) where
  trim_history_recent :
      (works : Working) (max_events : ℕ) (h : History)
      → (trim_history dumps size works max_events h).recent ≡ h.recent
  unfolding trim_history
  trim_history_recent works max_events h =
      let next : History = record h { writes = h.writes + 1 } in
      ground (arith, rewrite_recent works max_events next)

  record_event_recent :
      (works : Working) (max_events window : ℕ) (e : Event) (h : History)
      → technical_recovery_event e.action e.source ≡ false
      → (record_event dumps size works max_events window e h).1.recent
        ≡ (event_is_recent_duplicate dumps size e window h).1.recent
  unfolding record_event
  record_event_recent works max_events window e h t =
      let d = (event_is_recent_duplicate dumps size e window h).1 in
      let after : History = record d { file = some (lines_of h.file ++ (event e ∷ [])) } in
      ground (arith, trim_history_recent works max_events after)

  remembered :
      (e : Event) (window : ℕ) (h : History)
      → (window =ℕ 0) ≡ false
      → mem e.action never_deduplicate_actions ≡ false
      → length h.recent ≤ 128
      → Dict.get
          (event_fingerprint dumps size e)
          (event_is_recent_duplicate dumps size e window h).1.recent
        ≡ some e.ts
  unfolding event_is_recent_duplicate
  remembered e window h n m l =
      ground (arith, get-forget_oldest (event_fingerprint dumps size e) e.ts h.recent l)

  found_again :
      (e : Event) (window at : ℕ) (h : History)
      → (window =ℕ 0) ≡ false
      → mem e.action never_deduplicate_actions ≡ false
      → Dict.get (event_fingerprint dumps size e) h.recent ≡ some at
      → at ≤ e.ts
      → e.ts < at + window
      → (event_is_recent_duplicate dumps size e window h).0 ≡ true
  unfolding event_is_recent_duplicate
  found_again e window at h n m g a b = ground (arith, g)

  dropped :
      (works : Working) (max_events window : ℕ) (e : Event) (h : History)
      → (event_is_recent_duplicate dumps size e window h).0 ≡ true
      → ((record_event dumps size works max_events window e h).0 ≡ true)
        × ((record_event dumps size works max_events window e h).1.file ≡ h.file)
  unfolding record_event event_is_recent_duplicate
  dropped works max_events window e h d = (ground arith, ground arith)

  same_fingerprint :
      (e : Event) (later : ℕ)
      → event_fingerprint dumps size (record e { ts = later }) ≡ event_fingerprint dumps size e
  unfolding event_fingerprint
  same_fingerprint e later = refl

  technical_ignored :
      (works : Working) (max_events window : ℕ) (e : Event) (h : History)
      → technical_recovery_event e.action e.source ≡ true
      → record_event dumps size works max_events window e h ≡ (true, h)
  unfolding record_event
  technical_ignored works max_events window e h t = ground arith

  -- `record_event` twice: an event that differs from the one before only in its time is not written if it is no
  -- earlier and by less than the window later, whatever became of the first; the second call returns True
  -- and leaves the file as it is. Conditions: the window is not 0, the event is no switch of the key, and at
  -- most 128 fingerprints were remembered.
  pub record_event_twice :
      (works again : Working) (max_events window later : ℕ) (e : Event) (h : History)
      → (window =ℕ 0) ≡ false
      → mem e.action never_deduplicate_actions ≡ false
      → length h.recent ≤ 128
      → e.ts ≤ later
      → later < e.ts + window
      → let once = (record_event dumps size works max_events window e h).1 in
        let twice =
          record_event dumps size again max_events window (record e { ts = later }) once in
        (twice.0 ≡ true) × (twice.1.file ≡ once.file)
  record_event_twice works again max_events window later e h n m l a b =
      let once = (record_event dumps size works max_events window e h).1 in
      let e' : Event = record e { ts = later } in
      elim (Bool-cases (technical_recovery_event e.action e.source)) [
        | inl technical ↦
            (let ignored = technical_ignored again max_events window e' once technical in
              (ap (λ x. x.0) ignored, ap (λ x. x.1.file) ignored))
        | inr plain ↦ dropped again max_events window e' once (
            found_again e' window e.ts once n m
              (ap (λ k. Dict.get k once.recent) (same_fingerprint e later)
                ∙ (ap (Dict.get (event_fingerprint dumps size e))
                      (record_event_recent works max_events window e h plain)
                    ∙ remembered e window h n m l))
              a b)
      ]
