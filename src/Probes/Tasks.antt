-- ===== src/Probes/Tasks.antt =====
-- A resumed probe: what it checks, and its counts.
use bypass_keenetic.Prelude.{ℕ, suc, true, false, List, [], ◌∷◌, String, ◌==◌, ◌≡◌}
use bypass_keenetic.KeyPool.Catalog.{mem}
use bypass_keenetic.KeyPool.Pools.{Pools, pool}
use bypass_keenetic.KeyPool.Candidates.Filter.{holds}
use bypass_keenetic.Probes.Resume.{Task}

module _ (protocols : List String) (hash_key : String → String) where
  -- The key stands in the pool of this known protocol, is not blank, and has this hash.
  pub record Named (pools : Pools) (proto key_id key : String) : Type 0 where
    pub known : mem proto protocols ≡ true
    pub stands : holds key (pool pools proto) ≡ true
    pub filled : (key == "") ≡ false
    pub hashed : hash_key key ≡ key_id

  -- The tasks that are left of these, in their order, and how many are missing: a task is left with a key
  -- that it names, or missing because no key has its hash.
  pub data Resolves (pools : Pools) : List Task → List Task → ℕ → Type 0 where
    finished : Resolves pools [] [] 0
    left :
        {proto key_id key : String} {tasks found : List Task} {n : ℕ}
        → Named pools proto key_id key
        → Resolves pools tasks found n
        → Resolves pools ((proto, key_id) ∷ tasks) ((proto, key) ∷ found) n
    missing :
        {proto key_id : String} {tasks found : List Task} {n : ℕ}
        → ((key : String) → Named pools proto key_id key → ⊥)
        → Resolves pools tasks found n
        → Resolves pools ((proto, key_id) ∷ tasks) found (suc n)
