-- ===== src/Events/Bounds.antt =====
-- The history and the memory of events stay small.
use bypass_keenetic.Prelude.{
  ℕ, zero, suc, ◌+◌, ◌-◌, ◌*◌, ◌%◌, ◌≤◌, Bool, true, ◌&&◌, ◌||◌, not, none, some, String, ltb, ◌=ℕ◌,
  List, [], ◌∷◌, ◌++◌, length, drop, length-append, ◌≡◌, refl, arith, Bool-cases, Option-cases, inl,
  inr, subst,
}
use bypass_keenetic.Prelude.Dict
use bypass_keenetic.Prelude.Dict.{Dict}
use bypass_keenetic.Plan.Json.{Value}
use bypass_keenetic.Events.Log.{
  Event, Line, event, History, Working, technical_recovery_event, last_of, forget_oldest, limit_of,
  retained, event_fingerprint, event_is_recent_duplicate, rewrite, trim_history, lines_of,
  record_event,
}

-- At most as many lines as the limit, and one more for each write since the last trimming.
pub record Bounded (limit : ℕ) (h : History) : Type 0 where
  pub lines : length (lines_of h.file) ≤ limit + h.writes % 10
  pub fingerprints : length h.recent ≤ 128

pub length-drop {ℓ} : {A : Type ℓ} (n : ℕ) (xs : List A) → length (drop n xs) ≡ length xs - n
length-drop zero xs = omega arith
length-drop (suc n) [] = omega arith
length-drop (suc n) (x ∷ xs) = omega (arith, length-drop n xs)

pub length-last_of {ℓ} : {A : Type ℓ} (n : ℕ) (xs : List A) → length (last_of n xs) ≤ n
unfolding last_of
length-last_of n xs = omega (arith, length-drop (length xs - n) xs)

length-put {ℓ} :
    {V : Type ℓ} (k : String) (v : V) (d : Dict V) → length (Dict.put k v d) ≤ suc (length d)
unfolding Dict.put
length-put k v [] = omega arith
length-put k v ((j, w) ∷ d) = ground (arith, length-put k v d)

length-forget_oldest : (d : Dict ℕ) → length d ≤ 129 → length (forget_oldest d) ≤ 128
unfolding forget_oldest
length-forget_oldest [] h = omega arith
length-forget_oldest (x ∷ d) h = ground arith

rewrite-Bounded :
    (works : Working) (max_events : ℕ) (h : History)
    → works.reads ≡ true
    → works.replaces ≡ true
    → length h.recent ≤ 128
    → Bounded (limit_of max_events) (rewrite works max_events h)
unfolding rewrite lines_of
rewrite-Bounded works max_events h r t m = elim (Option-cases h.file) [
  | inl missing ↦ record { lines = ground arith; fingerprints = ground arith }
  | inr (ls, f) ↦ record {
    lines = ground (arith, length-last_of (limit_of max_events) (retained ls));
    fingerprints = ground arith;
  }
]

empty_lines : (max_events : ℕ) → length (lines_of none) ≤ limit_of max_events + 0 % 10
unfolding lines_of
empty_lines max_events = omega arith

module _ (dumps : Value → String) (size : List Line → ℕ) where
  trim_history-Bounded :
      (works : Working) (max_events : ℕ) (h : History) (ls : List Line)
      → works.reads ≡ true
      → works.replaces ≡ true
      → h.file ≡ some ls
      → length ls ≤ limit_of max_events + h.writes % 10 + 1
      → length h.recent ≤ 128
      → Bounded (limit_of max_events) (trim_history dumps size works max_events h)
  unfolding trim_history lines_of
  trim_history-Bounded works max_events h ls r t f b m =
      let h' : History = record h { writes = h.writes + 1 } in
      let again = rewrite-Bounded works max_events h' r t m in
      elim (Bool-cases ((h.writes + 1) % 10 =ℕ 0)) [
        | inl due ↦ record {
          lines = ground (arith, again.lines);
          fingerprints = ground (arith, again.fingerprints);
        }
        | inr early ↦ elim (Bool-cases (ltb (size ls) (96 * 1024))) [
          | inr large ↦ record {
            lines = ground (arith, again.lines);
            fingerprints = ground (arith, again.fingerprints);
          }
          | inl small ↦ record { lines = ground arith; fingerprints = ground arith }
        ]
      ]

  recent_small :
      (e : Event) (window : ℕ) (h : History)
      → length h.recent ≤ 128
      → length (event_is_recent_duplicate dumps size e window h).1.recent ≤ 128
  unfolding event_is_recent_duplicate
  recent_small e window h m =
      let key = event_fingerprint dumps size e in
      ground
        (arith, length-put key e.ts h.recent, length-forget_oldest (Dict.put key e.ts h.recent))

  same_file :
      (e : Event) (window : ℕ) (h : History)
      → ((event_is_recent_duplicate dumps size e window h).1.file ≡ h.file)
        × ((event_is_recent_duplicate dumps size e window h).1.writes ≡ h.writes)
  unfolding event_is_recent_duplicate
  same_file e window h = (ground arith, ground arith)

  record_event-Bounded :
      (works : Working) (max_events window : ℕ) (e : Event) (h : History)
      → works.reads ≡ true
      → works.replaces ≡ true
      → Bounded (limit_of max_events) h
      → Bounded (limit_of max_events) (record_event dumps size works max_events window e h).1
  unfolding record_event
  record_event-Bounded works max_events window e h r t b =
      let d = (event_is_recent_duplicate dumps size e window h).1 in
      let (same, count) = same_file e window h in
      let small = recent_small e window h b.fingerprints in
      let skipped : Bounded (limit_of max_events) d = record {
        lines = ground (arith, same, count, b.lines);
        fingerprints = small;
      } in
      let ls = lines_of h.file ++ (event e ∷ []) in
      let written : History = record d { file = some ls } in
      let trimmed =
        trim_history-Bounded works max_events written ls r t refl
          (ground (arith, count, b.lines, length-append (lines_of h.file) (event e ∷ []))) small in
      let result = (record_event dumps size works max_events window e h).1 in
      elim (Bool-cases (technical_recovery_event e.action e.source)) [
        | inl technical ↦
            subst (Bounded (limit_of max_events)) {x = h} {y = result} (ground arith) b
        | inr plain ↦
            elim (Bool-cases
              ((event_is_recent_duplicate dumps size e window h).0 || not works.appends)) [
                | inl stopped ↦
                    subst (Bounded (limit_of max_events)) {x = d} {y = result} (ground arith)
                      skipped
                | inr goes_on ↦
                    subst (Bounded (limit_of max_events))
                      {x = trim_history dumps size works max_events written} {y = result}
                      (ground arith) trimmed
              ]
      ]

  -- The history after these calls, each with its window, its event and what works in it.
  unfoldable pub record_all : ℕ → List (Working × ℕ × Event) → History → History
  record_all max_events [] h = h
  record_all max_events ((works, window, e) ∷ calls) h =
      record_all max_events calls (record_event dumps size works max_events window e h).1

  -- The file can be read and replaced in each of the calls.
  unfoldable pub all_trim : List (Working × ℕ × Event) → Bool
  all_trim [] = true
  all_trim ((works, window, e) ∷ calls) = (works.reads && works.replaces) && all_trim calls

  record_all-Bounded :
      (max_events : ℕ) (calls : List (Working × ℕ × Event)) (h : History)
      → all_trim calls ≡ true
      → Bounded (limit_of max_events) h
      → Bounded (limit_of max_events) (record_all max_events calls h)
  unfolding record_all all_trim
  record_all-Bounded max_events [] h a b = b
  record_all-Bounded max_events ((works, window, e) ∷ calls) h a b =
      record_all-Bounded max_events calls (record_event dumps size works max_events window e h).1
        (ground arith)
        (record_event-Bounded works max_events window e h (ground arith) (ground arith) b)

  -- `record_event`: after any calls from an empty history, the file has at most nine lines more than the limit,
  -- and at most 128 fingerprints are remembered. Condition: the file can be read and replaced in each
  -- call; appending may fail.
  pub record_all-length :
      (max_events : ℕ) (calls : List (Working × ℕ × Event))
      → all_trim calls ≡ true
      → (length (
            lines_of
              (record_all max_events calls (record { file = none; writes = 0; recent = [] })).file)
          ≤ limit_of max_events + 9)
        × (length
              (record_all max_events calls (record { file = none; writes = 0; recent = [] })).recent
            ≤ 128)
  record_all-length max_events calls a =
      let start : Bounded (limit_of max_events) (record { file = none; writes = 0; recent = [] }) =
        record { lines = empty_lines max_events; fingerprints = omega arith } in
      let b =
        record_all-Bounded max_events calls (record { file = none; writes = 0; recent = [] }) a
          start in
      (omega (arith, b.lines), b.fingerprints)
