-- ===== src/Failover/Gate.antt =====
-- `RouteRecoveryGate`. The dict of rejected keys keeps its order of insertion.
use bypass_keenetic.Prelude.{
  ℕ, ◌+◌, ◌*◌, Bool, true, false, ◌&&◌, List, [], ◌∷◌, String, ◌==◌, if◌then◌else◌, ltb, leb,
  length,
}
use bypass_keenetic.Prelude.Dict
use bypass_keenetic.Prelude.Dict.{Dict}

-- One item of `_rejected`.
pub record Rejection : Type 0 where
  pub proto : String
  pub key_id : String
  pub until : ℕ

pub record RouteRecoveryGate : Type 0 where
  pub cooldown : ℕ
  pub routes : Dict ℕ
  pub rejected : List Rejection

-- `max(300, cooldown)`
unfoldable pub new_gate : ℕ → RouteRecoveryGate
new_gate c = record { cooldown = if ltb c 300 then 300 else c; routes = []; rejected = [] }

-- The gate after, and whether the route must wait.
unfoldable pub deferred : String → ℕ → Bool → RouteRecoveryGate → RouteRecoveryGate × Bool
unfolding Dict.get_or
deferred proto now reserve g =
    if ltb now (Dict.get_or proto 0 g.routes)
    then (g, true)
    else if reserve
    then (record g { routes = Dict.put proto (now + g.cooldown) g.routes }, false)
    else (g, false)

unfoldable pub committed : String → ℕ → RouteRecoveryGate → RouteRecoveryGate
committed proto now g = record g { routes = Dict.put proto (now + g.cooldown) g.routes }

-- The rejections that have not run out.
unfoldable pub live : ℕ → List Rejection → List Rejection
live now [] = []
live now (r ∷ rs) = let rest = live now rs in if ltb now r.until then r ∷ rest else rest

-- `pop(next(iter(...)))` when there are 48.
unfoldable pub make_room : List Rejection → List Rejection
make_room [] = []
make_room (r ∷ rs) = if leb 48 (length (r ∷ rs)) then rs else r ∷ rs

-- `_rejected[(proto, key_id)] = until`
unfoldable pub put_rejection : String → String → ℕ → List Rejection → List Rejection
put_rejection proto key until [] = record { proto = proto; key_id = key; until = until } ∷ []
put_rejection proto key until (r ∷ rs) =
    let rest = put_rejection proto key until rs in
    if r.proto == proto && r.key_id == key then record r { until = until } ∷ rs else r ∷ rest

unfoldable pub reject : String → String → ℕ → RouteRecoveryGate → RouteRecoveryGate
reject proto key now g = record g {
  rejected = put_rejection proto key (now + 2 * g.cooldown) (make_room (live now g.rejected));
}

-- `_rejected.get((proto, key_id), 0)`
unfoldable pub rejected_until : String → String → List Rejection → ℕ
rejected_until proto key [] = 0
rejected_until proto key (r ∷ rs) =
    if r.proto == proto && r.key_id == key then r.until else rejected_until proto key rs

unfoldable pub eligible : String → String → ℕ → RouteRecoveryGate → Bool
eligible proto key now g = leb (rejected_until proto key g.rejected) now
