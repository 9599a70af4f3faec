-- ===== src/Events/Estimate.antt =====
-- The estimate lies between the shortest and the longest time that counts.
use bypass_keenetic.Prelude.{
  ℕ, zero, suc, ◌+◌, ◌-◌, ◌/◌, ◌%◌, ◌≤◌, ◌<◌, true, ◌&&◌, ◌||◌, not, String, ◌==◌, if◌then◌else◌,
  ltb, leb, ◌=ℕ◌, List, [], ◌∷◌, ◌++◌, length, drop, All, ◌≡◌, ◌⊎◌, inl, inr, refl, arith,
  Bool-cases, subst, sym,
}
use bypass_keenetic.Events.Log.{Event, last_of}
use bypass_keenetic.Events.Bounds.{length-drop}
use bypass_keenetic.Events.Duration.{
  Expected, insert_seconds, sorted, item, half, median_seconds, without_last, without_first,
  estimate, counts, loop_step, durations_of, estimate_update_duration,
}

module _ (lo hi : ℕ) where
  abbrev pub Within : ℕ → Type 0
  Within n = (lo ≤ n) × (n ≤ hi)

  insert-All : (n : ℕ) (ns : List ℕ) → Within n → All Within ns → All Within (insert_seconds n ns)
  unfolding insert_seconds
  insert-All n [] h a = (h, tt)
  insert-All n (m ∷ ms) h (b, a) = elim (Bool-cases (leb n m)) [
    | inl before ↦ subst (All Within) {x = n ∷ m ∷ ms} (ground arith) (h, (b, a))
    | inr after ↦
        subst (All Within) {x = m ∷ insert_seconds n ms} (ground arith) (b, insert-All n ms h a)
  ]

  sorted-All : (ns : List ℕ) → All Within ns → All Within (sorted ns)
  unfolding sorted
  sorted-All [] a = tt
  sorted-All (n ∷ ns) (h, a) = insert-All n (sorted ns) h (sorted-All ns a)

  drop-All : (n : ℕ) (ns : List ℕ) → All Within ns → All Within (drop n ns)
  drop-All zero ns a = a
  drop-All (suc n) [] a = tt
  drop-All (suc n) (m ∷ ns) (h, a) = drop-All n ns a

  append-All : (ms ns : List ℕ) → All Within ms → All Within ns → All Within (ms ++ ns)
  append-All [] ns a b = b
  append-All (m ∷ ms) ns (h, a) b = (h, append-All ms ns a b)

  without_first-All : (ns : List ℕ) → All Within ns → All Within (without_first ns)
  unfolding without_first
  without_first-All [] a = tt
  without_first-All (n ∷ ns) (h, a) = a

  without_last-All : (ns : List ℕ) → All Within ns → All Within (without_last ns)
  unfolding without_last
  without_last-All [] a = tt
  without_last-All (n ∷ []) a = tt
  without_last-All (n ∷ m ∷ ns) (h, a) = (h, without_last-All (m ∷ ns) a)

  item-Within : (i : ℕ) (ns : List ℕ) → All Within ns → i < length ns → Within (item i ns)
  unfolding item
  item-Within i [] a l = absurd (omega (arith, l))
  item-Within zero (n ∷ ns) (h, a) l = h
  item-Within (suc i) (n ∷ ns) (h, a) l = item-Within i ns a (omega (arith, l))

length-insert : (n : ℕ) (ns : List ℕ) → length (insert_seconds n ns) ≡ suc (length ns)
unfolding insert_seconds
length-insert n [] = omega arith
length-insert n (m ∷ ms) = ground (arith, length-insert n ms)

length-sorted : (ns : List ℕ) → length (sorted ns) ≡ length ns
unfolding sorted
length-sorted [] = refl
length-sorted (n ∷ ns) = omega (arith, length-sorted ns, length-insert n (sorted ns))

length-without_first : (ns : List ℕ) → length (without_first ns) ≡ length ns - 1
unfolding without_first
length-without_first [] = omega arith
length-without_first (n ∷ ns) = omega arith

length-without_last : (ns : List ℕ) → length (without_last ns) ≡ length ns - 1
unfolding without_last
length-without_last [] = omega arith
length-without_last (n ∷ []) = omega arith
length-without_last (n ∷ m ∷ ns) = omega (arith, length-without_last (m ∷ ns))

half-Within : (lo hi a b : ℕ) → Within lo hi a → Within lo hi b → Within lo hi (half (a + b))
unfolding half
half-Within lo hi a b (p, q) (r, s) = ground arith

median-Within :
    (lo hi : ℕ) (ns : List ℕ)
    → All (Within lo hi) ns
    → 1 ≤ length ns
    → Within lo hi (median_seconds ns)
unfolding median_seconds
median-Within lo hi ns a l =
    let os = sorted ns in
    let all = sorted-All lo hi ns a in
    let count = length os in
    let middle = count / 2 in
    let size : count ≡ length ns = length-sorted ns in
    let at = item-Within lo hi middle os all (omega (arith, size, l)) in
    elim (Bool-cases (count % 2 =ℕ 1)) [
      | inl odd ↦ subst (Within lo hi) {x = item middle os} (ground (arith, size, l)) at
      | inr even ↦
          (let below = item-Within lo hi (middle - 1) os all (omega (arith, size, l)) in
            subst (Within lo hi) {x = half (item (middle - 1) os + item middle os)}
              (ground (arith, size, l))
              (half-Within lo hi (item (middle - 1) os) (item middle os) below at))
    ]

recent-Within :
    (lo hi : ℕ) (ns : List ℕ) → All (Within lo hi) ns → All (Within lo hi) (last_of 8 ns)
unfolding last_of
recent-Within lo hi ns a = drop-All lo hi (length ns - 8) ns a

length-recent : (ns : List ℕ) → length (last_of 8 ns) ≡ length ns - (length ns - 8)
unfolding last_of
length-recent ns = length-drop (length ns - 8) ns

estimate-Within :
    (x : Expected) (ns : List ℕ)
    → All (Within x.min_seconds x.max_seconds) ns
    → ((estimate x ns).0 ≡ x.default_seconds) ⊎ Within x.min_seconds x.max_seconds (estimate x ns).0
unfolding estimate
estimate-Within x ns a =
    let recent = last_of 8 ns in
    let count = length ns in
    let kept = recent-Within x.min_seconds x.max_seconds ns a in
    elim (Bool-cases (count =ℕ 0 || ltb count (if x.min_samples =ℕ 0 then 1 else x.min_samples))) [
      | inl few ↦ inl (ground arith)
      | inr enough ↦
          (let some_made : 1 ≤ length recent = ground (arith, length-recent ns) in
            elim (Bool-cases (leb 5 (length recent))) [
              | inl many ↦
                  (let inner = without_last (without_first (sorted recent)) in
                    let middle =
                      median-Within x.min_seconds x.max_seconds inner
                        (without_last-All x.min_seconds x.max_seconds
                          (without_first (sorted recent))
                          (without_first-All x.min_seconds x.max_seconds (sorted recent)
                            (sorted-All x.min_seconds x.max_seconds recent kept)))
                        (ground (
                          arith,
                          length-without_last (without_first (sorted recent)),
                          length-without_first (sorted recent),
                          length-sorted recent,
                        )) in
                    inr (
                      subst (Within x.min_seconds x.max_seconds) {x = median_seconds inner}
                        (ground arith) middle))
              | inr fewer ↦ inr (
                  subst (Within x.min_seconds x.max_seconds) {x = median_seconds recent}
                    (ground arith)
                    (median-Within x.min_seconds x.max_seconds recent kept some_made))
            ])
    ]

module _ (lower : String → String) where
  counts-Within :
      (x : Expected) (start : ℕ) (e : Event)
      → counts lower x start e ≡ true
      → Within x.min_seconds x.max_seconds (e.ts - start)
  unfolding counts
  counts-Within x start e c = (ground (arith, c), ground (arith, c))

  found_more :
      (x : Expected) (start : ℕ) (found : List ℕ) (e : Event)
      → ((loop_step lower x start found e).1 ≡ found)
        ⊎ (((loop_step lower x start found e).1 ≡ found ++ ((e.ts - start) ∷ []))
            × (counts lower x start e ≡ true))
  unfolding loop_step
  found_more x start found e = elim (Bool-cases (counts lower x start e)) [
    | inr no_sample ↦ inl (ground arith)
    | inl sample ↦
        elim (Bool-cases (not (e.source == "web") || (not (e.service == x.command) || e.ts =ℕ 0))) [
          | inl other ↦ inl (ground arith)
          | inr own ↦ elim (Bool-cases (e.action == "web_command_start")) [
            | inl starts ↦ inl (ground arith)
            | inr goes_on ↦
                elim (Bool-cases (e.action == "web_command_finish" && not (start =ℕ 0))) [
                  | inl ends ↦ inr (ground arith, sample)
                  | inr else_action ↦ inl (ground arith)
                ]
          ]
        ]
  ]

  durations-Within :
      (x : Expected) (start : ℕ) (found : List ℕ) (events : List Event)
      → All (Within x.min_seconds x.max_seconds) found
      → All (Within x.min_seconds x.max_seconds) (durations_of lower x start found events)
  unfolding durations_of
  durations-Within x start found [] a = a
  durations-Within x start found (e ∷ events) a =
      let after = loop_step lower x start found e in
      durations-Within x after.0 after.1 events (elim (found_more x start found e) [
        | inl same ↦ subst (All (Within x.min_seconds x.max_seconds)) (sym same) a
        | inr (more, sample) ↦ subst (All (Within x.min_seconds x.max_seconds)) (sym more) (
            append-All x.min_seconds x.max_seconds found ((e.ts - start) ∷ []) a
              (counts-Within x start e sample, tt))
      ])

  -- `estimate_update_duration`: the estimate is the default, or it is at least `min_seconds` and at most
  -- `max_seconds`.
  pub estimate_update_duration-Within :
      (x : Expected) (events : List Event)
      → ((estimate_update_duration lower x events).0 ≡ x.default_seconds)
        ⊎ Within x.min_seconds x.max_seconds (estimate_update_duration lower x events).0
  unfolding estimate_update_duration
  estimate_update_duration-Within x events =
      estimate-Within x (durations_of lower x 0 [] events) (durations-Within x 0 [] events tt)
