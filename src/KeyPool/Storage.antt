-- ===== src/KeyPool/Storage.antt =====
-- `load_key_pools` and `save_key_pools`: the file of the pools, its copy `.last-good`, and writes
-- that fail or are cut off. The text of a file is its JSON value, or one that cannot be read.
use bypass_keenetic.Prelude.{String, Option, Result, ok, raise}
use bypass_keenetic.KeyPool.Catalog.{protocol_display_order}
use bypass_keenetic.KeyPool.Pools.{Pools, normalize_key_pools}
use bypass_keenetic.KeyPool.Repair.{no_pools, repair_key_pool_protocols}

-- Not there; there but not readable as an object of lists; or readable.
pub data PoolFile : Type 0 where
  missing unreadable : PoolFile
  holds : Pools → PoolFile

pub record Store : Type 0 where
  pub primary : PoolFile
  pub last_good : PoolFile

pub data PoolError : Type 0 where
  key_pool_load_error write_error : PoolError

-- `_read_key_pools_file`, with what `load_key_pools` makes of its failures.
unfoldable pub read_recovery : PoolFile → Result PoolError Pools
read_recovery missing = raise key_pool_load_error
read_recovery unreadable = raise key_pool_load_error
read_recovery (holds pools) = ok (normalize_key_pools pools)

-- The branch of `FileNotFoundError`: `os.path.exists(recovery_path)`.
unfoldable pub read_without_primary : PoolFile → Result PoolError Pools
unfolding read_recovery
read_without_primary missing = ok (no_pools protocol_display_order)
read_without_primary unreadable = read_recovery unreadable
read_without_primary (holds pools) = read_recovery (holds pools)

unfoldable pub load_key_pools : Store → Result PoolError Pools
unfolding read_recovery read_without_primary
load_key_pools s = elim s.primary [
  | missing ↦ read_without_primary s.last_good
  | unreadable ↦ read_recovery s.last_good
  | holds pools ↦ ok (normalize_key_pools pools)
]

-- One `_atomic_write_key_pools`: it succeeds, it raises or the process ends before `os.replace`, or
-- after it.
pub data Outcome : Type 0 where
  fine before behind : Outcome

-- The file after the write, and whether the caller goes on.
unfoldable pub atomic_write : Outcome → Pools → PoolFile → PoolFile × Result PoolError (Unit {0})
atomic_write fine pools f = (holds pools, ok tt)
atomic_write before pools f = (f, raise write_error)
atomic_write behind pools f = (holds pools, raise write_error)

module _ (split_scheme : String → Option String) where
  -- The outcomes are those of the write of the copy and of the file itself.
  unfoldable pub save_key_pools : Outcome → Outcome → Pools → Store → Store × Result PoolError Pools
  unfolding atomic_write
  save_key_pools first second pools s =
      let repaired = (repair_key_pool_protocols split_scheme pools).repaired in
      let (copy, done) = atomic_write first repaired s.last_good in
      elim done [
        | raise e ↦ (record s { last_good = copy }, raise e)
        | ok _ ↦
            (let (file, written) = atomic_write second repaired s.primary in
              (
                record { primary = file; last_good = copy },
                elim written [ raise e ↦ raise e | ok _ ↦ ok repaired ],
              ))
      ]
