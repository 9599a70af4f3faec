-- ===== src/Coordinator/World.antt =====
-- What one thread sees: the file intent.json, the two locks and the thread-local context.
use bypass_keenetic.Prelude.{ℕ, zero, suc, Bool, true, false, Option, none, some}

-- `ApplyTicket`
pub record ApplyTicket : Type 0 where
  pub generation : ℕ
  pub manual_epoch : ℕ

-- The three fields of intent.json.
pub record Intent : Type 0 where
  pub generation : ℕ
  pub manual_epoch : ℕ
  pub pending_manual : Option ℕ

-- The content of intent.json. `malformed` is any content that `_state` refuses.
pub data File : Type 0 where
  absent malformed : File
  stored : Intent → File

-- A `ProcessRLock` as this thread sees it: how often it has taken the lock, and whether another
-- thread or process keeps the lock for longer than the timeout.
pub record Lock : Type 0 where
  pub depth : ℕ
  pub blocked : Bool

-- The thread-local dictionary `context`; its 'depth' is 0 or 1.
pub record Context : Type 0 where
  pub ticket : ApplyTicket
  pub manual : Bool
  pub depth : ℕ

-- What `_atomic_json` does: it writes, raises before `os.replace`, or raises after it, where the
-- directory cannot be synced.
pub data Writing : Type 0 where
  works refused unsynced : Writing

pub record World : Type 0 where
  pub file : File
  pub writing : Writing
  pub apply_lock : Lock
  pub intent_lock : Lock
  pub context : Option Context

-- `ApplyBusy`, `StaleApply`, the `RuntimeError` and `ValueError` of the code, an `OSError` of the
-- disk, the `AttributeError` of `del self._local.context`.
pub data Error : Type 0 where
  apply_busy stale_apply runtime_error value_error os_error attribute_error : Error

acquire_at : ℕ → Bool → Lock → Option Lock
acquire_at (suc n) blocked l = some (record l { depth = suc (suc n) })
acquire_at zero true l = none
acquire_at zero false l = some (record l { depth = 1 })

-- `acquire` with blocking; `none` is the return value False.
unfoldable pub acquire : Lock → Option Lock
unfolding acquire_at
acquire l = acquire_at l.depth l.blocked l

release_at : ℕ → Lock → Option Lock
release_at zero l = none
release_at (suc n) l = some (record l { depth = n })

-- `release`; `none` is the RuntimeError of a thread that does not own the lock.
unfoldable pub release : Lock → Option Lock
unfolding release_at
release l = release_at l.depth l
