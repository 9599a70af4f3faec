-- ===== src/Probes/Resume.antt =====
-- The saved payload of a probe. Its numbers are those that `_nonnegative_int` gives; `hash_key` is the
-- caller's. A payload that is no dict is not modelled: both functions return `None` for it.
use Prim.Native.String.{count}
use Prim.Native.String as Str
use bypass_keenetic.Prelude.{
  ℕ, ◌+◌, ◌-◌, min, max, Bool, true, not, ◌&&◌, ◌||◌, Option, none, some, List, [], ◌∷◌, String,
  ◌==◌, if◌then◌else◌, ◌=ℕ◌, length,
}
use bypass_keenetic.Prelude.Text.{strip}
use bypass_keenetic.Switch.Letters.{lower}
use bypass_keenetic.KeyPool.Catalog.{mem}
use bypass_keenetic.KeyPool.Pools.{Pools, pool}
use bypass_keenetic.Routes.Strings.{has_char}

-- A dict with the texts of `proto`, `protocol`, `key_id`, `hash` and `key`, a pair, or anything else.
pub data Item : Type 0 where
  fields : String → String → String → String → String → Item
  pair : String → String → Item
  other : Item

-- The protocol and the key or its id.
abbrev pub Task : Type 0
Task = String × String

pub record Payload : Type 0 where
  pub tasks : List Item
  pub scope : String
  pub checked : ℕ
  pub total : ℕ
  pub started_at : ℕ
  pub skipped_missing : ℕ

pub record Resumable : Type 0 where
  pub todo : List Task
  pub kind : String
  pub done : ℕ
  pub all_tasks : ℕ
  pub since : ℕ
  pub missing_keys : ℕ

unfoldable pub first_text : String → String → String
first_text a b = if a == "" then b else a

unfoldable pub hex_digits : String → Bool
hex_digits Str.[] = true
hex_digits (Str.◌∷◌ c s) = has_char c "0123456789abcdefABCDEF" && hex_digits s

module _ (protocols : List String) (hash_key : String → String) where
  unfoldable pub task_id : String → String → Option Task
  task_id raw_proto raw_key =
      let proto = strip raw_proto in
      let key = strip raw_key in
      if not (mem proto protocols) || key == ""
      then none
      else if count key =ℕ 40 && hex_digits key
      then some (proto, lower key)
      else some (proto, hash_key key)

  unfoldable pub task_of : Item → Option Task
  task_of (fields proto protocol key_id hash key) =
      task_id (first_text proto protocol) (first_text key_id (first_text hash key))
  task_of (pair proto key) = task_id proto key
  task_of other = none

  unfoldable pub tasks_of : List Item → List Task
  tasks_of [] = []
  tasks_of (i ∷ items) =
      let rest = tasks_of items in elim (task_of i) [ none ↦ rest | some t ↦ t ∷ rest ]

  unfoldable pub with_tasks : ℕ → Payload → List Task → Resumable
  with_tasks now p tasks =
      let total = max p.total (max (p.checked + length tasks) (length tasks)) in
      record {
        todo = tasks;
        kind = if p.scope == "" then "manual" else p.scope;
        done = min p.checked total;
        all_tasks = total;
        since = if p.started_at =ℕ 0 then now else p.started_at;
        missing_keys = p.skipped_missing;
      }

  unfoldable pub normalize_payload : ℕ → Payload → Option Resumable
  normalize_payload now p = elim (tasks_of p.tasks) [
    | [] ↦ none
    | ◌∷◌ t tasks ↦ some (with_tasks now p (t ∷ tasks))
  ]

  -- `lookup.get((proto, key_id))` over the keys of a pool; a later key with the same hash wins.
  unfoldable pub find_key : String → List String → Option String
  find_key key_id [] = none
  find_key key_id (raw ∷ keys) =
      let key = strip raw in
      elim (find_key key_id keys) [
        | some found ↦ some found
        | none ↦ (if not (key == "") && hash_key key == key_id then some key else none)
      ]

  unfoldable pub lookup : Pools → Task → Option String
  lookup pools (proto, key_id) =
      if mem proto protocols then find_key key_id (pool pools proto) else none

  unfoldable pub resolved : Pools → List Task → List Task
  resolved pools [] = []
  resolved pools ((proto, key_id) ∷ tasks) =
      let rest = resolved pools tasks in
      elim (lookup pools (proto, key_id)) [ none ↦ rest | some key ↦ (proto, key) ∷ rest ]

  unfoldable pub resolve_tasks : Pools → Resumable → Resumable
  resolve_tasks pools r =
      let found = resolved pools r.todo in
      record r {
        todo = found;
        all_tasks = r.done + length found;
        missing_keys = r.missing_keys + (length r.todo - length found);
      }

  unfoldable pub resolve_payload : ℕ → Pools → Payload → Option Resumable
  resolve_payload now pools p = elim (normalize_payload now p) [
    | none ↦ none
    | some r ↦ some (resolve_tasks pools r)
  ]

-- The dicts that `serializable_payload` writes for the tasks.
unfoldable pub saved_items : List Task → List Item
saved_items [] = []
saved_items ((proto, key_id) ∷ tasks) = fields proto "" key_id "" "" ∷ saved_items tasks

unfoldable pub serializable_payload : Resumable → Payload
serializable_payload r = record {
  tasks = saved_items r.todo;
  scope = r.kind;
  checked = r.done;
  total = r.all_tasks;
  started_at = r.since;
  skipped_missing = r.missing_keys;
}
