-- ===== src/Failover/Failing.antt =====
-- How a state counts failing checks of one service in a row.
use bypass_keenetic.Prelude.{
  ℕ, suc, ◌+◌, ◌≤◌, true, some, String, ◌≡◌, arith, eq_iff, Option-cases, inl, inr,
}
use bypass_keenetic.Failover.Watchdog.{State, differs, expired, for_identity, count_failure}

-- The state after some failing checks of a service in a row, the first and the last at these times.
pub record Failing (id svc : String) (n first last : ℕ) (s : State) : Type 0 where
  pub identity_known : s.identity ≡ some id
  pub count : s.failures ≡ n
  pub about : s.failure_service ≡ some svc
  pub since : s.first_failure_at ≡ some first
  pub waits : s.retry_at ≡ last + 60

pub same_key : (id : String) (s : State) → s.identity ≡ some id → for_identity id s ≡ s
unfolding for_identity differs
same_key id s h = ground (arith, eq_iff id id)

pub key_of : (id : String) (s : State) → (for_identity id s).identity ≡ some id
unfolding for_identity differs
key_of id s = elim (Option-cases s.identity) [
  | inl e ↦ ground arith
  | inr (old, e) ↦ ground (arith, eq_iff old id)
]

pub fresh_count :
    (id svc : String) (now : ℕ) (s : State)
    → s.identity ≡ some id
    → s.retry_at ≡ now + 60
    → differs s.failure_service svc ≡ true
    → Failing id svc 1 now now (count_failure now svc s)
unfolding count_failure
fresh_count id svc now s i r d = record {
  identity_known = ground arith;
  count = ground arith;
  about = ground arith;
  since = ground arith;
  waits = ground arith;
}

pub next_count :
    (id svc : String) (n first last now : ℕ) (s : State)
    → Failing id svc n first last s
    → now ≤ first + 300
    → Failing id svc (suc n) first now (count_failure now svc (record s { retry_at = now + 60 }))
unfolding count_failure differs expired
next_count id svc n first last now s f h =
    let i = f.identity_known in
    let c = f.count in
    let a = f.about in
    let b = f.since in
    record {
      identity_known = ground (arith, i, a, b, eq_iff svc svc);
      count = ground (arith, c, a, b, eq_iff svc svc);
      about = ground (arith, a, b, eq_iff svc svc);
      since = ground (arith, a, b, eq_iff svc svc);
      waits = ground (arith, a, b, eq_iff svc svc);
    }
