-- ===== src/Routes/Trie.antt =====
-- The trie of reversed labels, as `compile_cross_route_domain_overrides` fills and reads it.
use bypass_keenetic.Prelude.{Option, none, some, List, [], ◌∷◌, String, ◌==◌, if◌then◌else◌}
use bypass_keenetic.Routes.Entries.{Kind, domain, full}
use bypass_keenetic.Routes.Masks.{Mask, or_mask}

mutual
  -- The dicts made by `node()`: children, domain, full, subtree.
  pub data Node : Type 0 where
    node : Children → Mask → Mask → Mask → Node

  pub data Children : Type 0 where
    leaf : Children
    child : String → Node → Children → Children

unfoldable pub empty_node : Node
empty_node = node leaf [] [] []

unfoldable pub domain_of : Node → Mask
domain_of (node cs d f s) = d

unfoldable pub get_child : String → Children → Option Node
get_child l leaf = none
get_child l (child m n cs) = if m == l then some n else get_child l cs

-- One step of the filling loop: the child is made if it is not there, and changed.
unfoldable pub update_child : (Node → Node) → String → Children → Children
update_child g l leaf = child l (g empty_node) leaf
update_child g l (child m n cs) =
    let rest = update_child g l cs in if m == l then child m (g n) cs else child m n rest

-- `current[kind] |= owner`
unfoldable pub own_domain : Kind → Mask → Mask → Mask
own_domain domain owner d = or_mask d owner
own_domain full owner d = d

unfoldable pub own_full : Kind → Mask → Mask → Mask
own_full domain owner f = f
own_full full owner f = or_mask f owner

-- The filling loop over the labels of one rule.
unfoldable pub insert : Mask → Kind → List String → Node → Node
insert owner kind [] (node cs d f s) =
    node cs (own_domain kind owner d) (own_full kind owner f) (or_mask s owner)
insert owner kind (l ∷ labels) (node cs d f s) =
    node (update_child (insert owner kind labels) l cs) d f (or_mask s owner)

-- The end of the reading loop.
unfoldable pub last_mask : Kind → Node → Mask
last_mask domain (node cs d f s) = s
last_mask full (node cs d f s) = f

unfoldable pub children_of : Node → Children
children_of (node cs d f s) = cs

-- The reading loop; `none` is a `KeyError`.
unfoldable pub overlapping : Kind → List String → Node → Mask → Option Mask
unfolding children_of
overlapping kind [] n acc = some (or_mask acc (last_mask kind n))
overlapping kind (l ∷ labels) n acc = elim (get_child l (children_of n)) [
  | none ↦ none
  | some c ↦ overlapping kind labels c (or_mask acc (domain_of c))
]
