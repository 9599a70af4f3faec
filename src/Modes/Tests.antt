-- ===== src/Modes/Tests.antt =====
-- A change to the mode without a bot, and the theorem about it.
use bypass_keenetic.Prelude.{true, false, some, ok, ◌⊎◌, inr, ◌≡◌, refl}
use bypass_keenetic.Prelude.Text.{strip}
use bypass_keenetic.Switch.Letters.{lower}
use bypass_keenetic.Modes.Setting.{
  is_mode, spelled, underscores, normalize_app_runtime_mode, pool_enabled, telegram_enabled, Device,
  load_mode, works, set_app_runtime_mode,
}
use bypass_keenetic.Modes.Effects.{InStep, set_app_runtime_mode-InStep}

abbrev device : Device
device = record { mode_file = some "simple"; autostart = true; restart = false }

device-InStep : InStep "advanced" "simple" device
unfolding telegram_enabled load_mode normalize_app_runtime_mode spelled underscores lower strip
    is_mode pool_enabled
device-InStep = (refl, inr (refl, refl))

set_app_runtime_mode-InStep_example :
    InStep "advanced" "simple" (set_app_runtime_mode "advanced" works true " Web-Only" device).0
    × ((((set_app_runtime_mode "advanced" works true " Web-Only" device).1 ≡ ok true)
          × (load_mode "advanced"
                (set_app_runtime_mode "advanced" works true " Web-Only" device).0.mode_file
              ≡ spelled " Web-Only"))
        ⊎ ((set_app_runtime_mode "advanced" works true " Web-Only" device).0.mode_file
            ≡ device.mode_file))
set_app_runtime_mode-InStep_example =
    set_app_runtime_mode-InStep "advanced" works "simple" " Web-Only" device (λ e. cc) device-InStep
