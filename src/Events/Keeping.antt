-- ===== src/Events/Keeping.antt =====
-- An event that is recorded is the last line of the history; a repeated one is not recorded again.
use bypass_keenetic.Prelude.{
  ℕ, zero, suc, ◌+◌, ◌-◌, ◌*◌, ◌%◌, ◌≤◌, true, false, ◌&&◌, ◌||◌, not, Option, some, String, ◌==◌,
  ltb, leb, ◌=ℕ◌, List, [], ◌∷◌, ◌++◌, length, drop, length-append, ◌≡◌, ◌⊎◌, refl, ap, ◌∙◌, subst,
  arith, eq_iff, Bool-cases, inl, inr,
}
use bypass_keenetic.KeyPool.Catalog.{mem}
use bypass_keenetic.Plan.Json.{Value}
use bypass_keenetic.Events.Log.{
  Event, Line, event, broken, History, Working, never_deduplicate_actions, recovery_restore_sources,
  technical_recovery_actions, technical_recovery_event, last_of, limit_of, retained,
  event_is_recent_duplicate, rewrite, trim_history, lines_of, record_event,
}

-- The new lines are older ones and the event; what is given up of the older ones is technical events,
-- broken lines, and the oldest lines.
abbrev pub Added : Event → List Line → List Line → Type 0
Added e old new =
    (before : List Line) × (new ≡ before ++ (event e ∷ []))
    × ((before ≡ old) ⊎ ((n : ℕ) × (before ≡ drop n (retained old))))

drop_append {ℓ} :
    {A : Type ℓ} (n : ℕ) (xs : List A) (x : A)
    → n ≤ length xs
    → drop n (xs ++ (x ∷ [])) ≡ drop n xs ++ (x ∷ [])
drop_append zero xs x h = refl
drop_append (suc n) [] x h = absurd (omega (arith, h))
drop_append (suc n) (y ∷ xs) x h = drop_append n xs x (omega (arith, h))

retained_append :
    (ls : List Line) (e : Event)
    → technical_recovery_event e.action e.source ≡ false
    → retained (ls ++ (event e ∷ [])) ≡ retained ls ++ (event e ∷ [])
unfolding retained
retained_append [] e t = ground arith
retained_append (broken b ∷ ls) e t = retained_append ls e t
retained_append (event f ∷ ls) e t = ground (arith, retained_append ls e t)

limit_made : (n : ℕ) → 1 ≤ limit_of n
unfolding limit_of
limit_made n = ground arith

last_append {ℓ} :
    {A : Type ℓ} (m : ℕ) (xs : List A) (x : A)
    → 1 ≤ m
    → last_of m (xs ++ (x ∷ [])) ≡ drop (suc (length xs) - m) xs ++ (x ∷ [])
unfolding last_of
last_append m xs x h =
    ap (λ n. drop (n - m) (xs ++ (x ∷ []))) (omega (arith, length-append xs (x ∷ [])))
    ∙ drop_append (suc (length xs) - m) xs x (omega (arith, h))

rewrite-Added :
    (works : Working) (max_events : ℕ) (e : Event) (h : History) (old : List Line)
    → technical_recovery_event e.action e.source ≡ false
    → h.file ≡ some (old ++ (event e ∷ []))
    → Added e old (lines_of (rewrite works max_events h).file)
unfolding rewrite lines_of
rewrite-Added works max_events e h old t f =
    let m = limit_of max_events in
    let new = old ++ (event e ∷ []) in
    let kept = retained new in
    elim (Bool-cases (
      (not works.reads || (length kept =ℕ length new && leb (length new) m))
      || not works.replaces)) [
        | inl stays ↦ (old, ground arith, inl refl)
        | inr trims ↦
            (let n = suc (length (retained old)) - m in
              (
                drop n (retained old),
                ground (
                  arith,
                  retained_append old e t,
                  last_append m (retained old) (event e) (limit_made max_events),
                ),
                inr (n, refl),
              ))
      ]

other_actions :
    (action : String)
    → mem action never_deduplicate_actions ≡ true
    → mem action technical_recovery_actions ≡ false
unfolding mem never_deduplicate_actions technical_recovery_actions
other_actions action m = elim (Bool-cases ("key_switch" == action)) [
  | inl e ↦
      subst (λ x. mem x technical_recovery_actions ≡ false) ((eq_iff "key_switch" action).0 e) refl
  | inr n ↦
      subst (λ x. mem x technical_recovery_actions ≡ false)
        ((eq_iff "key_switch_auto" action).0 (ground arith)) refl
]

plain_switch :
    (e : Event)
    → mem e.action never_deduplicate_actions ≡ true
    → mem e.source recovery_restore_sources ≡ false
    → technical_recovery_event e.action e.source ≡ false
unfolding technical_recovery_event
plain_switch e m s = ground (arith, other_actions e.action m)

the_lines : (e : Event) (old : List Line) → Added e old (lines_of (some (old ++ (event e ∷ []))))
unfolding lines_of
the_lines e old = (old, refl, inl refl)

module _ (dumps : Value → String) (size : List Line → ℕ) where
  trim_history-Added :
      (works : Working) (max_events : ℕ) (e : Event) (h : History) (old : List Line)
      → technical_recovery_event e.action e.source ≡ false
      → h.file ≡ some (old ++ (event e ∷ []))
      → Added e old (lines_of (trim_history dumps size works max_events h).file)
  unfolding trim_history
  trim_history-Added works max_events e h old t f =
      let new = old ++ (event e ∷ []) in
      let h' : History = record h { writes = h.writes + 1 } in
      let result = trim_history dumps size works max_events h in
      elim (Bool-cases (not ((h.writes + 1) % 10 =ℕ 0) && ltb (size new) (96 * 1024))) [
        | inl early ↦
            subst (λ (x : Option (List Line)). Added e old (lines_of x)) {x = some new}
              {y = result.file} (ground (arith, f)) (the_lines e old)
        | inr due ↦
            subst (λ (x : History). Added e old (lines_of x.file)) {x = rewrite works max_events h'}
              {y = result} (ground (arith, f)) (rewrite-Added works max_events e h' old t f)
      ]

  recorded-Added :
      (works : Working) (max_events window : ℕ) (e : Event) (h : History)
      → technical_recovery_event e.action e.source ≡ false
      → (event_is_recent_duplicate dumps size e window h).0 ≡ false
      → works.appends ≡ true
      → ((record_event dumps size works max_events window e h).0 ≡ true)
        × Added e
            (lines_of h.file)
            (lines_of (record_event dumps size works max_events window e h).1.file)
  unfolding record_event
  recorded-Added works max_events window e h t d a =
      let old = lines_of h.file in
      let after : History = record (event_is_recent_duplicate dumps size e window h).1 {
        file = some (old ++ (event e ∷ []));
      } in
      (
        ground arith,
        subst (λ (x : History). Added e old (lines_of x.file))
            {x = trim_history dumps size works max_events after}
            {y = (record_event dumps size works max_events window e h).1} (ground arith)
            (trim_history-Added works max_events e after old t refl),
      )

  never_duplicate :
      (e : Event) (window : ℕ) (h : History)
      → mem e.action never_deduplicate_actions ≡ true
      → (event_is_recent_duplicate dumps size e window h).0 ≡ false
  unfolding event_is_recent_duplicate
  never_duplicate e window h m = ground arith

  -- `record_event`: a switch of the key, unless its source is the restoring after a failover, is never taken for
  -- a repetition: the call returns True and the event is the last line of the history. The lines before it
  -- are all the old ones, or, of those that are events and not technical ones, the newest. Condition: the
  -- event can be appended to the file.
  pub record_event_switch :
      (works : Working) (max_events window : ℕ) (e : Event) (h : History)
      → mem e.action never_deduplicate_actions ≡ true
      → mem e.source recovery_restore_sources ≡ false
      → works.appends ≡ true
      → ((record_event dumps size works max_events window e h).0 ≡ true)
        × Added e
            (lines_of h.file)
            (lines_of (record_event dumps size works max_events window e h).1.file)
  record_event_switch works max_events window e h m s a =
      recorded-Added works max_events window e h (plain_switch e m s) (never_duplicate e window h m)
        a
