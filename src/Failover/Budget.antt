-- ===== src/Failover/Budget.antt =====
-- The gate over any sequence of its calls, made by any of the watchdogs.
use bypass_keenetic.Prelude.{
  ℕ, suc, ◌+◌, ◌*◌, ◌≤◌, ◌<◌, Bool, true, false, List, [], ◌∷◌, String, ◌==◌, if◌then◌else◌, leb,
  length, max, ◌≡◌, refl, arith, eq_iff, All, ◌∙◌,
}
use bypass_keenetic.Prelude.Dict
use bypass_keenetic.Failover.Gate.{
  Rejection, RouteRecoveryGate, new_gate, deferred, committed, live, make_room, put_rejection,
  reject, rejected_until, eligible,
}

-- A call of the gate, with the time it is made at.
pub data Use : Type 0 where
  ask : String → Bool → Use
  commit : String → Use
  refuse : String → String → Use

pub record At : Type 0 where
  pub now : ℕ
  pub call : Use

unfoldable pub use_gate : At → RouteRecoveryGate → RouteRecoveryGate
use_gate u g = elim u.call [
  | ask p reserve ↦ (deferred p u.now reserve g).0
  | commit p ↦ committed p u.now g
  | refuse p k ↦ reject p k u.now g
]

unfoldable pub uses : List At → RouteRecoveryGate → RouteRecoveryGate
uses [] g = g
uses (u ∷ us) g = uses us (use_gate u g)

-- The time until which a route waits.
abbrev waits : String → RouteRecoveryGate → ℕ
waits p g = Dict.get_or p 0 g.routes

routes_put :
    (p q : String) (n : ℕ) (d : Dict.Dict ℕ)
    → Dict.get_or q 0 (Dict.put p n d) ≡ (if p == q then n else Dict.get_or q 0 d)
unfolding Dict.get_or
routes_put p q n d = ground (arith, Dict.get-put p q n d)

cooldown_kept : (u : At) (g : RouteRecoveryGate) → (use_gate u g).cooldown ≡ g.cooldown
unfolding use_gate deferred committed reject
cooldown_kept u g = ground arith

-- A later call never shortens a wait below `t + cooldown`.
waits_kept :
    (p : String) (t : ℕ) (u : At) (g : RouteRecoveryGate)
    → t ≤ u.now
    → t + g.cooldown ≤ waits p g
    → t + g.cooldown ≤ waits p (use_gate u g)
unfolding use_gate deferred committed reject
waits_kept p t u g l h =
    elim u.call as (λ c. t + g.cooldown ≤ waits p (use_gate (record u { call = c }) g)) [
      | ask q r ↦ ground (arith, routes_put q p (u.now + g.cooldown) g.routes)
      | commit q ↦ ground (arith, routes_put q p (u.now + g.cooldown) g.routes)
      | refuse q k ↦ h
    ]

live-length : (now : ℕ) (rs : List Rejection) → length (live now rs) ≤ length rs
unfolding live
live-length now [] = omega arith
live-length now (r ∷ rs) = ground (arith, live-length now rs)

make_room-length : (rs : List Rejection) → length rs ≤ 48 → length (make_room rs) ≤ 47
unfolding make_room
make_room-length [] h = omega arith
make_room-length (r ∷ rs) h = ground arith

put-length :
    (p k : String) (n : ℕ) (rs : List Rejection) → length (put_rejection p k n rs) ≤ suc (length rs)
unfolding put_rejection
put-length p k n [] = omega arith
put-length p k n (r ∷ rs) = ground (arith, put-length p k n rs)

until-put :
    (p k : String) (n : ℕ) (rs : List Rejection) → rejected_until p k (put_rejection p k n rs) ≡ n
unfolding rejected_until put_rejection
until-put p k n [] = ground (arith, eq_iff p p, eq_iff k k)
until-put p k n (r ∷ rs) = ground (arith, eq_iff p p, eq_iff k k, until-put p k n rs)

reject-bounded :
    (p k : String) (now : ℕ) (g : RouteRecoveryGate)
    → length g.rejected ≤ 48
    → length (reject p k now g).rejected ≤ 48
unfolding reject
reject-bounded p k now g h =
    let room = make_room (live now g.rejected) in
    omega (
      arith,
      h,
      live-length now g.rejected,
      make_room-length (live now g.rejected),
      put-length p k (now + 2 * g.cooldown) room,
    )

use-bounded :
    (u : At) (g : RouteRecoveryGate) → length g.rejected ≤ 48 → length (use_gate u g).rejected ≤ 48
unfolding use_gate deferred committed
use-bounded u g h =
    elim u.call as (λ c. length (use_gate (record u { call = c }) g).rejected ≤ 48) [
      | ask q r ↦ ground arith
      | commit q ↦ h
      | refuse q k ↦ reject-bounded q k u.now g h
    ]

uses-waits :
    (p : String) (t : ℕ) (us : List At) (g : RouteRecoveryGate)
    → All (λ u. t ≤ u.now) us
    → t + g.cooldown ≤ waits p g
    → t + g.cooldown ≤ waits p (uses us g)
unfolding uses
uses-waits p t [] g l h = h
uses-waits p t (u ∷ us) g l h =
    let g' = use_gate u g in
    ground (arith, cooldown_kept u g, waits_kept p t u g l.0 h, uses-waits p t us g' l.1)

uses-rejected :
    (us : List At) (g : RouteRecoveryGate)
    → length g.rejected ≤ 48
    → (length (uses us g).rejected ≤ 48) × ((uses us g).cooldown ≡ g.cooldown)
unfolding uses
uses-rejected [] g h = (h, refl)
uses-rejected (u ∷ us) g h =
    let (b, c) = uses-rejected us (use_gate u g) (use-bounded u g h) in (b, c ∙ cooldown_kept u g)

waiting :
    (p : String) (t s : ℕ) (reserve : Bool) (us : List At) (g : RouteRecoveryGate)
    → All (λ u. t ≤ u.now) us
    → s < t + g.cooldown
    → t + g.cooldown ≤ waits p g
    → deferred p s reserve (uses us g) ≡ (uses us g, true)
unfolding deferred
waiting p t s reserve us g l h w = ground (arith, uses-waits p t us g l w)

waits-committed :
    (p : String) (t : ℕ) (g : RouteRecoveryGate) → waits p (committed p t g) ≡ t + g.cooldown
unfolding committed
waits-committed p t g = ground (arith, eq_iff p p, routes_put p p (t + g.cooldown) g.routes)

waits-deferred :
    (p : String) (t : ℕ) (g : RouteRecoveryGate)
    → (deferred p t true g).1 ≡ false
    → ((deferred p t true g).0.cooldown ≡ g.cooldown)
      × (waits p (deferred p t true g).0 ≡ t + g.cooldown)
unfolding deferred
waits-deferred p t g e = ground (arith, eq_iff p p, routes_put p p (t + g.cooldown) g.routes)

-- Once a change of a route's key is committed, every later call of `deferred` for the route before the
-- cooldown has run out answers that it must wait and changes nothing, whatever calls of the gate come
-- in between, if none of them is made at an earlier time.
pub deferred-uses :
    (p : String) (t s : ℕ) (reserve : Bool) (us : List At) (g : RouteRecoveryGate)
    → All (λ u. t ≤ u.now) us
    → s < t + g.cooldown
    → deferred p s reserve (uses us (committed p t g)) ≡ (uses us (committed p t g), true)
unfolding committed Dict.get_or
deferred-uses p t s reserve us g l h =
    waiting p t s reserve us (committed p t g) l h (omega (arith, waits-committed p t g))

-- Once a call of `deferred` that reserves has let a route go on, every later call of `deferred` for the
-- route before the cooldown has run out answers that it must wait and changes nothing, whatever calls
-- of the gate come in between, if none of them is made at an earlier time: two watchdogs never both
-- go on.
pub deferred-reserved :
    (p : String) (t s : ℕ) (reserve : Bool) (us : List At) (g : RouteRecoveryGate)
    → All (λ u. t ≤ u.now) us
    → s < t + g.cooldown
    → (deferred p t true g).1 ≡ false
    → deferred p s reserve (uses us (deferred p t true g).0)
      ≡ (uses us (deferred p t true g).0, true)
unfolding Dict.get_or
deferred-reserved p t s reserve us g l h e =
    let (c, w) = waits-deferred p t g e in
    waiting p t s reserve us (deferred p t true g).0 l (omega (arith, c, h)) (omega (arith, c, w))

-- The gate made for a cooldown, after any calls: it holds at most 48 rejections, its cooldown is at
-- least 300 and is that asked for if this is more, and a key that is now rejected becomes eligible
-- for its route exactly when twice the cooldown has passed.
pub eligible-reject :
    (c : ℕ) (us : List At) (p k : String) (now t : ℕ)
    → let g = uses us (new_gate c) in
      (length g.rejected ≤ 48)
      × (g.cooldown ≡ max 300 c)
      × (eligible p k t (reject p k now g) ≡ leb (now + 2 * max 300 c) t)
unfolding eligible reject new_gate
eligible-reject c us p k now t =
    let g = uses us (new_gate c) in
    let (b, k') = uses-rejected us (new_gate c) (omega arith) in
    (
      b,
      ground (arith, k'),
      ground (arith, k', until-put p k (now + 2 * g.cooldown) (make_room (live now g.rejected))),
    )
