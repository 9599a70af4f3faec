-- ===== src/Modes/Setting.antt =====
-- `normalize_app_runtime_mode`, loading and saving, and `set_app_runtime_mode`.
use Prim.Native.Char.{code}
use Prim.Native.String.{String, [], ◌∷◌, char_at}
use bypass_keenetic.Prelude.{
  Bool, true, false, not, ◌||◌, Option, none, some, ◌==◌, if◌then◌else◌, ◌=ℕ◌, Result, ok, raise,
}
use bypass_keenetic.Prelude.Text.{strip}
use bypass_keenetic.Switch.Letters.{lower}

-- `replace('-', '_')`
unfoldable pub underscores : String → String
underscores [] = []
underscores (c ∷ s) =
    let rest = underscores s in if code c =ℕ 45 then char_at "_" 0 ∷ rest else c ∷ rest

unfoldable pub is_mode : String → Bool
is_mode mode = mode == "simple" || (mode == "advanced" || mode == "web_only")

-- `str(mode or '').strip().lower().replace('-', '_')`
unfoldable pub spelled : String → String
spelled mode = underscores (lower (strip mode))

unfoldable pub normalize_app_runtime_mode : String → String
normalize_app_runtime_mode mode = if is_mode (spelled mode) then spelled mode else "advanced"

-- `app_mode_pool_enabled` and `app_mode_telegram_enabled`
unfoldable pub pool_enabled : String → Bool
pool_enabled mode =
    normalize_app_runtime_mode mode == "advanced" || normalize_app_runtime_mode mode == "web_only"

unfoldable pub telegram_enabled : String → Bool
telegram_enabled mode = not (normalize_app_runtime_mode mode == "web_only")

-- The mode file (`none` where it is missing or cannot be read), the autostart of the bot, and whether
-- a restart is scheduled.
pub record Device : Type 0 where
  pub mode_file : Option String
  pub autostart : Bool
  pub restart : Bool

-- `load_app_runtime_mode`, with the default that the bot configures.
unfoldable pub load_mode : String → Option String → String
load_mode default none = normalize_app_runtime_mode default
load_mode default (some text) = normalize_app_runtime_mode (strip text)

-- `save_app_runtime_mode`: it works, it raises when the file is opened, or the file stays empty.
pub data Saving : Type 0 where
  works not_opened emptied : Saving

pub data SaveError : Type 0 where
  save_error : SaveError

-- The final newline, which `strip` takes off again, is left out.
unfoldable pub save_mode : Saving → String → Option String → Option String × Result SaveError String
save_mode works mode f =
    (some (normalize_app_runtime_mode mode), ok (normalize_app_runtime_mode mode))
save_mode not_opened mode f = (f, raise save_error)
save_mode emptied mode f = (some "", raise save_error)

-- `==` of two flags.
unfoldable pub same_flag : Bool → Bool → Bool
same_flag true b = b
same_flag false b = not b

unfoldable pub restart_required : String → String → Bool
restart_required previous current =
    not (same_flag (telegram_enabled previous) (telegram_enabled current))
    || not (same_flag (pool_enabled previous) (pool_enabled current))

-- `_save_bot_autostart`, which leaves the file as it is, and raises nothing, where it cannot be changed.
unfoldable pub save_bot_autostart : Bool → Bool → Bool → Bool
save_bot_autostart writable enabled old = if writable then enabled else old

-- The calls that follow the save; `writable` says whether the file of the autostart can be changed.
unfoldable pub changed : Bool → String → String → Device → Device
unfolding save_bot_autostart
changed writable previous current d = record d {
  autostart =
      if current == "web_only"
      then save_bot_autostart writable false d.autostart
      else if previous == "web_only"
      then save_bot_autostart writable true d.autostart
      else d.autostart;
  restart = if restart_required previous current then true else d.restart;
}

unfoldable pub saved :
    Bool
    → String
    → Device
    → Option String × Result SaveError String
    → Device × Result SaveError Bool
unfolding changed
saved writable previous d (f, raise e) = (record d { mode_file = f }, raise e)
saved writable previous d (f, ok current) =
    (changed writable previous current (record d { mode_file = f }), ok true)

-- The result is the first value of the tuple that the code returns.
unfoldable pub set_app_runtime_mode :
    String → Saving → Bool → String → Device → Device × Result SaveError Bool
unfolding saved save_mode load_mode
set_app_runtime_mode default saving writable requested d =
    if not (is_mode (spelled requested))
    then (d, ok false)
    else saved writable (load_mode default d.mode_file) d
        (save_mode saving (spelled requested) d.mode_file)
