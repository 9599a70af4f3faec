-- ===== src/Auth/Trimming.antt =====
-- The trimming loop ends, and what it leaves.
use bypass_keenetic.Prelude.{
  ℕ, zero, suc, ◌-◌, ◌≤◌, some, [], ◌∷◌, String, if◌then◌else◌, ◌=ℕ◌, length, drop, ◌≡◌, arith, ap,
}
use bypass_keenetic.Auth.Menu.{MenuState, States, pop_oldest, trim_loop}

-- The newest states, at most `max_entries` of them unless that is 0.
abbrev pub newest : ℕ → States → States
newest max_entries states =
    if max_entries =ℕ 0 then states else drop (length states - max_entries) states

drop-newest :
    (m : ℕ) (s : String × MenuState) (states : States)
    → m ≤ length states
    → drop (suc (length states) - m) (s ∷ states) ≡ drop (length states - m) states
drop-newest m s states h =
    let e : suc (length states) - m ≡ suc (length states - m) = omega arith in
    ap (λ k. drop k (s ∷ states)) e

drop_nothing :
    (m : ℕ) (states : States) → length states ≤ m → drop (length states - m) states ≡ states
drop_nothing m states h = let e : length states - m ≡ 0 = omega arith in ap (λ k. drop k states) e

-- `_trim_oldest_states` ends after at most as many rounds as there are states, and leaves the newest
-- ones in their order: all of them without a limit, else as many as the limit allows.
pub trim_loop-newest :
    (fuel max_entries : ℕ) (states : States)
    → length states ≤ fuel
    → trim_loop fuel max_entries states ≡ some (newest max_entries states)
unfolding trim_loop pop_oldest
trim_loop-newest zero m [] h = ground arith
trim_loop-newest zero m (s ∷ states) h = ground arith
trim_loop-newest (suc n) m [] h = ground arith
trim_loop-newest (suc n) m (s ∷ states) h = ground (
  arith,
  drop-newest m s states,
  drop_nothing m (s ∷ states),
  trim_loop-newest n m states (omega arith),
)
