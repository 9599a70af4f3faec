-- ===== src/KeyPool/Candidates/Choice.antt =====
-- The loops of `failover_candidates`, and its sort. A part of a sort key is a number or a negated one.
use bypass_keenetic.Prelude.{
  ℕ, suc, Bool, true, false, not, ◌&&◌, ◌||◌, List, [], ◌∷◌, ◌++◌, String, ◌==◌, if◌then◌else◌, ltb,
  leb, ◌=ℕ◌, keep,
}
use bypass_keenetic.Prelude.Text.{strip}
use bypass_keenetic.KeyPool.Catalog.{protocol_display_order, mem}
use bypass_keenetic.KeyPool.Keys.{new_keys, stripped_lines}
use bypass_keenetic.KeyPool.Pools.{Pools, pool, has, normalize_key_pools}
use bypass_keenetic.KeyPool.Candidates.Probe.{Query, score_of, checked_ts, recently_failed}

-- `protocols or PROTOCOLS`
unfoldable pub or_all : List String → List String
or_all [] = protocol_display_order
or_all (p ∷ protocols) = p ∷ protocols

unfoldable pub protocol_order : Pools → List String → List String
protocol_order pools protocols = keep (has pools) (or_all protocols)

-- The current protocol and its sister first.
unfoldable pub first_protocols : String → List String → List String
first_protocols current order =
    let own = if mem current order then current ∷ [] else [] in
    if current == "vless" && mem "vless2" order
    then own ++ "vless2" ∷ []
    else if current == "vless2" && mem "vless" order
    then own ++ "vless" ∷ []
    else own

unfoldable pub priority : String → List String → List String
priority current order =
    first_protocols current order ++ new_keys (first_protocols current order) order

-- A tuple of `candidates`.
pub record Scored : Type 0 where
  pub proto : String
  pub key : String
  pub score : ℕ
  pub checked : ℕ
  pub proto_rank : ℕ
  pub index : ℕ

-- The conditions of the loop; the protocol and the key in use are `current`.
unfoldable pub admitted : Query → String × String → String → String → Bool
admitted q current proto key =
    not (key == "")
    && (not (proto == current.0 && key == current.1)
        && (not (mem key (stripped_lines q.exclude_keys))
            && (not (recently_failed q key)
                && not
                    (not (q.service == "youtube") && (q.skip_failed && leb (score_of q key) 1)))))

unfoldable pub scored : Query → String → String → ℕ → ℕ → Scored
scored q proto key rank index = record {
  proto = proto;
  key = key;
  score = score_of q key;
  checked = checked_ts q key;
  proto_rank = rank;
  index = index;
}

-- The inner loop, from an index on.
unfoldable pub from_pool : Query → String × String → String → ℕ → ℕ → List String → List Scored
from_pool q current proto rank index [] = []
from_pool q current proto rank index (raw ∷ keys) =
    let rest = from_pool q current proto rank (suc index) keys in
    let key = strip raw in
    if admitted q current proto key then scored q proto key rank index ∷ rest else rest

unfoldable pub from_protocols : Query → String × String → Pools → ℕ → List String → List Scored
from_protocols q current pools rank [] = []
from_protocols q current pools rank (p ∷ protos) =
    from_pool q current p rank 0 (pool pools p) ++ from_protocols q current pools (suc rank) protos

pub data Part : Type 0 where
  plain negated : ℕ → Part

unfoldable pub part_less : Part → Part → Bool
part_less (plain a) (plain b) = ltb a b
part_less (plain a) (negated b) = false
part_less (negated a) (plain b) = not (a =ℕ 0 && b =ℕ 0)
part_less (negated a) (negated b) = ltb b a

-- The comparison of tuples.
unfoldable pub tuple_le : List Part → List Part → Bool
tuple_le [] ys = true
tuple_le (x ∷ xs) [] = false
tuple_le (x ∷ xs) (y ∷ ys) =
    let rest = tuple_le xs ys in part_less x y || (not (part_less y x) && rest)

unfoldable pub sort_key : Query → Scored → List Part
sort_key q c =
    if q.service == "youtube"
    then plain c.proto_rank ∷ negated c.score ∷ negated c.checked ∷ plain c.index ∷ []
    else negated c.score
      ∷ (if leb c.score 1 then plain c.checked else negated c.checked)
      ∷ plain c.proto_rank
      ∷ plain c.index
      ∷ []

-- `candidates.sort(key=...)`, which is stable.
unfoldable pub insert_scored : Query → Scored → List Scored → List Scored
insert_scored q c [] = c ∷ []
insert_scored q c (d ∷ cs) =
    let rest = insert_scored q c cs in
    if tuple_le (sort_key q c) (sort_key q d) then c ∷ d ∷ cs else d ∷ rest

unfoldable pub sort_candidates : Query → List Scored → List Scored
sort_candidates q [] = []
sort_candidates q (c ∷ cs) = insert_scored q c (sort_candidates q cs)

unfoldable pub ranked : Query → Pools → String → String → List String → List Scored
ranked q pools current_proto current_key protocols =
    let ps = normalize_key_pools pools in
    let proto = strip current_proto in
    sort_candidates q (
      from_protocols q (proto, strip current_key) ps 0
        (priority proto (protocol_order ps protocols)))

unfoldable pub keys_of : List Scored → List (String × String)
keys_of [] = []
keys_of (c ∷ cs) = (c.proto, c.key) ∷ keys_of cs

unfoldable pub failover_candidates :
    Query → Pools → String → String → List String → List (String × String)
failover_candidates q pools current_proto current_key protocols =
    keys_of (ranked q pools current_proto current_key protocols)
