-- ===== src/Screening/Recording.antt =====
-- What the entry holds after the results of a check are recorded.
use bypass_keenetic.Prelude.{
  ℕ, Bool, true, false, some, String, ◌==◌, List, [], ◌∷◌, ◌≡◌, ◌⊎◌, refl, arith, eq_iff,
  Bool-cases, Option-cases, inl, inr, sym, subst, ◌∙◌,
}
use bypass_keenetic.Prelude.Dict
use bypass_keenetic.Prelude.Dict.{Dict}
use bypass_keenetic.Plan.Json.{Value}
use bypass_keenetic.Screening.Checks.{Check, Contract, Values}
use bypass_keenetic.Screening.Entries.{
  Entry, has, matching, checks_in, joined, record_required, check_signature, skips, put_result,
  put_results, update_custom, recorded,
}
use bypass_keenetic.Screening.Dictionaries.{distinct, has-get}

-- The entry has this result of a check, with its time and signature.
pub record Stored (id : String) (ok : Bool) (now : ℕ) (signature : String) (e : Entry)
    : Type 0 where
  pub result : Dict.get id e.custom ≡ some ok
  pub time : Dict.get id e.custom_times ≡ some now
  pub signed : Dict.get id e.custom_signatures ≡ some signature

-- No check has failed by the entry.
abbrev pub NoFailure : Dict Bool → Type 0
NoFailure d = (id : String) → Dict.get id d ≡ some false → ⊥

matching_in :
    (id : String) (custom : Dict Bool) (cs : List Check)
    → has id custom ≡ true
    → matching id (checks_in custom cs) ≡ matching id cs
unfolding matching checks_in
matching_in id custom [] h = refl
matching_in id custom (c ∷ cs) h = ground (arith, eq_iff c.id id, matching_in id custom cs h)

items_cases :
    (d : Dict Bool) → (d ≡ []) ⊎ ((x : String × Bool) × (items : Dict Bool) × (d ≡ x ∷ items))
items_cases [] = inl refl
items_cases (x ∷ items) = inr (x, items, refl)

no_result : (id : String) (ok : Bool) (d : Dict Bool) → d ≡ [] → Dict.get id d ≡ some ok → ⊥
unfolding Dict.get
no_result id ok d e g = ground arith

module _ (sha256 sha1 : Value → String) where
  put_result-Stored :
      (now : ℕ) (cs : List Check) (c : Check) (id : String) (ok : Bool) (e : Entry)
      → matching id cs ≡ some c
      → Stored id ok now
          (check_signature sha256 sha1 c)
          (put_result sha256 sha1 now (some cs) id ok e)
  unfolding put_result
  put_result-Stored now cs c id ok e m = record {
    result = ground (arith, Dict.get-put id id ok e.custom, eq_iff id id);
    time = ground (arith, Dict.get-put id id now e.custom_times, eq_iff id id);
    signed = ground (
      arith,
      Dict.get-put id id (check_signature sha256 sha1 c) e.custom_signatures,
      eq_iff id id,
    );
  }

  put_result-kept :
      (now : ℕ) (cs : List Check) (id j : String) (ok b : Bool) (n : ℕ) (t : String) (e : Entry)
      → (j == id) ≡ false
      → Stored id b n t e
      → Stored id b n t (put_result sha256 sha1 now (some cs) j ok e)
  unfolding put_result
  put_result-kept now cs id j ok b n t e d s = record {
    result = ground (arith, Dict.get-put j id ok e.custom, s.result);
    time = ground (arith, Dict.get-put j id now e.custom_times, s.time);
    signed = elim (Option-cases (matching j cs)) [
      | inl m ↦ ground (arith, s.signed)
      | inr (c, m) ↦
          ground
            (arith, Dict.get-put j id (check_signature sha256 sha1 c) e.custom_signatures, s.signed)
    ];
  }

  put_results-kept :
      (now : ℕ) (cs : List Check) (items : Dict Bool) (id : String) (b : Bool) (n : ℕ) (t : String)
      (e : Entry) (skipped : Bool)
      → has id items ≡ false
      → Stored id b n t e
      → Stored id b n t (put_results sha256 sha1 true now (some cs) items skipped e).0
  unfolding put_results skips has
  put_results-kept now cs [] id b n t e skipped h s = s
  put_results-kept now cs ((j, ok) ∷ items) id b n t e skipped h s =
      put_results-kept now cs items id b n t (put_result sha256 sha1 now (some cs) j ok e) skipped
        (ground arith) (put_result-kept now cs id j ok b n t e (ground arith) s)

  put_results-Stored :
      (now : ℕ) (cs : List Check) (c : Check) (items : Dict Bool) (id : String) (ok : Bool)
      (e : Entry) (skipped : Bool)
      → distinct items ≡ true
      → Dict.get id items ≡ some ok
      → matching id cs ≡ some c
      → Stored id ok now
          (check_signature sha256 sha1 c)
          (put_results sha256 sha1 true now (some cs) items skipped e).0
  unfolding put_results skips distinct Dict.get
  put_results-Stored now cs c [] id ok e skipped d g m = ground arith
  put_results-Stored now cs c ((j, b) ∷ items) id ok e skipped d g m = elim (Bool-cases (j == id)) [
    | inl same ↦
        (let e' = put_result sha256 sha1 now (some cs) j b e in
          let answer : ok ≡ b = ground arith in
          let at = (eq_iff j id).0 same in
          let here : Stored id ok now (check_signature sha256 sha1 c) e' =
            subst
              (λ x.
                Stored id ok now (check_signature sha256 sha1 c)
                  (put_result sha256 sha1 now (some cs) x b e))
              (sym at)
              (subst
                (λ y.
                  Stored id ok now (check_signature sha256 sha1 c)
                    (put_result sha256 sha1 now (some cs) id y e))
                answer (put_result-Stored now cs c id ok e m)) in
          put_results-kept now cs items id ok now (check_signature sha256 sha1 c) e' skipped
            (subst (λ x. has x items ≡ false) at (ground arith)) here)
    | inr other ↦
        put_results-Stored now cs c items id ok (put_result sha256 sha1 now (some cs) j b e) skipped
          (ground arith) (ground arith) m
  ]

  put_results-NoFailure :
      (now : ℕ) (cs : List Check) (items : Dict Bool) (e : Entry) (skipped : Bool)
      → distinct items ≡ true
      → NoFailure items
      → NoFailure e.custom
      → NoFailure (put_results sha256 sha1 true now (some cs) items skipped e).0.custom
  unfolding put_results skips put_result distinct Dict.get
  put_results-NoFailure now cs [] e skipped d f h = h
  put_results-NoFailure now cs ((j, b) ∷ items) e skipped d f h =
      put_results-NoFailure now cs items (put_result sha256 sha1 now (some cs) j b e) skipped
        (ground arith) (λ id g. ground (arith, f id, eq_iff j id, has-get id false items))
        (λ id g. ground (arith, h id, f j, eq_iff j j, Dict.get-put j id b e.custom))

  update_custom-Stored :
      (now : ℕ) (cs : List Check) (c : Check) (items : Dict Bool) (id : String) (ok : Bool)
      (e : Entry)
      → distinct items ≡ true
      → Dict.get id items ≡ some ok
      → matching id cs ≡ some c
      → Stored id ok now
          (check_signature sha256 sha1 c)
          (update_custom sha256 sha1 true now (some cs) items e)
  unfolding update_custom
  update_custom-Stored now cs c items id ok e d g m =
      let s = put_results-Stored now cs c items id ok e false d g m in
      record {
        result = ground (arith, s.result);
        time = ground (arith, s.time);
        signed = ground (arith, s.signed);
      }

  update_custom-NoFailure :
      (now : ℕ) (cs : List Check) (items : Dict Bool) (e : Entry)
      → distinct items ≡ true
      → NoFailure items
      → NoFailure e.custom
      → NoFailure (update_custom sha256 sha1 true now (some cs) items e).custom
  unfolding update_custom
  update_custom-NoFailure now cs items e d f h id =
      let kept = put_results-NoFailure now cs items e false d f h id in ground (arith, kept)

  recorded_items :
      (now : ℕ) (k : Contract) (v : Values) (e : Entry) (x : String × Bool) (items : Dict Bool)
      → v.custom ≡ x ∷ items
      → recorded sha256 sha1 now (record_required k v) e
        ≡ update_custom sha256 sha1 true now (some (checks_in (x ∷ items) k.custom)) (x ∷ items) e
  unfolding recorded record_required
  recorded_items now k v e x items made = ground arith

  recorded_nothing :
      (now : ℕ) (k : Contract) (v : Values) (e : Entry)
      → v.custom ≡ []
      → recorded sha256 sha1 now (record_required k v) e ≡ e
  unfolding recorded record_required
  recorded_nothing now k v e none_made = elim (Option-cases (joined v.tg_ok)) [
    | inr (t, tg) ↦ ground arith
    | inl tg ↦ elim (Option-cases (joined v.yt_ok)) [
      | inr (y, yt) ↦ ground arith
      | inl yt ↦ ground arith
    ]
  ]

  -- `record_required` stores each result of a custom check, signed with the check of the contract.
  pub recorded-Stored :
      (now : ℕ) (k : Contract) (v : Values) (c : Check) (id : String) (ok : Bool) (e : Entry)
      → distinct v.custom ≡ true
      → Dict.get id v.custom ≡ some ok
      → matching id k.custom ≡ some c
      → Stored id ok now
          (check_signature sha256 sha1 c)
          (recorded sha256 sha1 now (record_required k v) e)
  recorded-Stored now k v c id ok e d g m = elim (items_cases v.custom) [
    | inl none_made ↦ absurd (no_result id ok v.custom none_made g)
    | inr (x, items, made) ↦
        subst (Stored id ok now (check_signature sha256 sha1 c))
          (sym (recorded_items now k v e x items made))
          (update_custom-Stored now (checks_in (x ∷ items) k.custom) c (x ∷ items) id ok e
            (subst (λ y. distinct y ≡ true) made d) (subst (λ y. Dict.get id y ≡ some ok) made g)
            (matching_in id (x ∷ items) k.custom
                (has-get id ok (x ∷ items) (subst (λ y. Dict.get id y ≡ some ok) made g))
              ∙ m))
  ]

  pub recorded-NoFailure :
      (now : ℕ) (k : Contract) (v : Values) (e : Entry)
      → distinct v.custom ≡ true
      → NoFailure v.custom
      → NoFailure e.custom
      → NoFailure (recorded sha256 sha1 now (record_required k v) e).custom
  recorded-NoFailure now k v e d f h = elim (items_cases v.custom) [
    | inl none_made ↦ subst (λ y. NoFailure y.custom) (sym (recorded_nothing now k v e none_made)) h
    | inr (x, items, made) ↦
        subst (λ y. NoFailure y.custom) (sym (recorded_items now k v e x items made))
          (update_custom-NoFailure now (checks_in (x ∷ items) k.custom) (x ∷ items) e
            (subst (λ y. distinct y ≡ true) made d) (subst NoFailure made f) h)
  ]
