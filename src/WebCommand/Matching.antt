-- ===== src/WebCommand/Matching.antt =====
-- When a report of an update is about the command that the state shows.
use bypass_keenetic.Prelude.{ℕ, ◌+◌, Bool, ◌&&◌, ◌||◌, [], ◌∷◌, leb, ◌=ℕ◌, ◌≡◌, arith}
use bypass_keenetic.WebCommand.State.{starts, latest, earliest, close_starts, is_time}

-- Two times of which one is not set, or that are at most the tolerance apart.
unfoldable pub near : ℕ → ℕ → ℕ → Bool
near tolerance a b = a =ℕ 0 || (b =ℕ 0 || (leb a (b + tolerance) && leb b (a + tolerance)))

-- `update_state_matches_command`, the test of the starts: of the three times, those of the command,
-- the update and the job, any two that are set are at most the tolerance apart.
pub close_starts-near :
    (tolerance a b c : ℕ)
    → close_starts tolerance (starts (a ∷ b ∷ c ∷ []))
      ≡ (near tolerance a b && (near tolerance b c && near tolerance a c))
unfolding close_starts starts latest earliest is_time near
close_starts-near tolerance a b c = ground arith
