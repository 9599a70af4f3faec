-- ===== src/Modes/Effects.antt =====
-- A change of the mode leaves the autostart, the running process and the file in step.
use Prim.Native.String.{String}
use bypass_keenetic.Prelude.{
  Bool, true, false, not, Option, none, some, ◌==◌, ok, ◌≡◌, ◌≢◌, refl, arith, eq_iff, Bool-cases,
  ◌⊎◌, inl, inr, subst, ap, sym,
}
use bypass_keenetic.Prelude.Text.{strip}
use bypass_keenetic.Switch.Letters.{lower}
use bypass_keenetic.Modes.Setting.{
  is_mode, spelled, normalize_app_runtime_mode, pool_enabled, telegram_enabled, Device, load_mode,
  Saving, works, not_opened, emptied, save_mode, same_flag, restart_required, changed, saved,
  set_app_runtime_mode, underscores,
}

-- The bot starts with the router if the mode has a bot, and the process that runs, started in the mode
-- `running`, has the features of the mode, unless a restart is scheduled.
abbrev pub InStep : String → String → Device → Type 0
InStep default running d =
    (d.autostart ≡ telegram_enabled (load_mode default d.mode_file))
    × ((d.restart ≡ true)
        ⊎ ((telegram_enabled running ≡ telegram_enabled (load_mode default d.mode_file))
            × (pool_enabled running ≡ pool_enabled (load_mode default d.mode_file))))

-- The three modes are spelled as they are normalized and read.
abbrev Kept : String → Type 0
Kept m = (normalize_app_runtime_mode m ≡ m) × ((default : String) → load_mode default (some m) ≡ m)

constants : Kept "simple" × Kept "advanced" × Kept "web_only"
unfolding load_mode normalize_app_runtime_mode spelled strip underscores is_mode lower
constants = ((refl, λ d. refl), (refl, λ d. refl), (refl, λ d. refl))

mode-Kept : (m : String) → is_mode m ≡ true → Kept m
unfolding is_mode
mode-Kept m h = elim (Bool-cases (m == "simple")) [
  | inl e ↦ subst Kept (sym ((eq_iff m "simple").0 e)) simple
  | inr e ↦ elim (Bool-cases (m == "advanced")) [
    | inl e' ↦ subst Kept (sym ((eq_iff m "advanced").0 e')) advanced
    | inr e' ↦ subst Kept (sym ((eq_iff m "web_only").0 (ground arith))) web_only
  ]
]
  where
    simple : Kept "simple"
    simple = constants.0

    advanced : Kept "advanced"
    advanced = constants.1

    web_only : Kept "web_only"
    web_only = constants.2

advanced_is_mode : is_mode "advanced" ≡ true
unfolding is_mode
advanced_is_mode = refl

same_flag_lem : (a b : Bool) → same_flag a b ≡ true → a ≡ b
unfolding same_flag
same_flag_lem true b h = ground arith
same_flag_lem false b h = ground arith

no_restart :
    (p c : String)
    → restart_required p c ≡ false
    → (telegram_enabled p ≡ telegram_enabled c) × (pool_enabled p ≡ pool_enabled c)
unfolding restart_required
no_restart p c h = ground (
  arith,
  same_flag_lem (telegram_enabled p) (telegram_enabled c),
  same_flag_lem (pool_enabled p) (pool_enabled c),
)

telegram_lem :
    (m : String) → normalize_app_runtime_mode m ≡ m → telegram_enabled m ≡ not (m == "web_only")
unfolding telegram_enabled
telegram_lem m h = rw h

changed-InStep :
    (default running previous current : String) (d : Device)
    → Kept current
    → Kept previous
    → (d.autostart ≡ telegram_enabled previous)
    → (d.restart ≡ true)
      ⊎ ((telegram_enabled running ≡ telegram_enabled previous)
          × (pool_enabled running ≡ pool_enabled previous))
    → d.mode_file ≡ some current
    → InStep default running (changed true previous current d)
unfolding changed
changed-InStep default running previous current d (k, l) (n, n') a r f = ground (
  arith,
  telegram_lem current k,
  telegram_lem previous n,
  no_restart previous current,
  ap (load_mode default) f,
  l default,
)

normalized-is_mode : (m : String) → is_mode (normalize_app_runtime_mode m) ≡ true
unfolding normalize_app_runtime_mode
normalized-is_mode m = elim (Bool-cases (is_mode (spelled m))) [
  | inl e ↦ rw (e, e)
  | inr e ↦ rw e advanced_is_mode
]

load-Kept : (default : String) (f : Option String) → Kept (load_mode default f)
unfolding load_mode
load-Kept default none = mode-Kept (normalize_app_runtime_mode default) (normalized-is_mode default)
load-Kept default (some text) =
    mode-Kept (normalize_app_runtime_mode (strip text)) (normalized-is_mode (strip text))

saved-InStep :
    (default : String) (saving : Saving) (running r : String) (d : Device)
    → saving ≢ emptied
    → Kept r
    → InStep default running d
    → let a = saved true (load_mode default d.mode_file) d (save_mode saving r d.mode_file) in
      InStep default running a.0
      × (((a.1 ≡ ok true) × (load_mode default a.0.mode_file ≡ r)) ⊎ (a.0.mode_file ≡ d.mode_file))
unfolding saved save_mode
saved-InStep default works running r d n k s = rw k.0 (
  changed-InStep default running (load_mode default d.mode_file) r (record d { mode_file = some r })
      k (load-Kept default d.mode_file) s.0 s.1 refl,
  inl (refl, unfold changed in k.1 default),
)
saved-InStep default not_opened running r d n k s = (s, inr refl)
saved-InStep default emptied running r d n k s = ground arith

-- `set_app_runtime_mode` with a save of the mode that works or raises before it changes the file, and an
-- autostart that can be changed: if the autostart was in step with the mode, and the features of the running
-- process too unless a restart was scheduled, they are in step afterwards; and either the call accepts
-- the mode and leaves it in the file, or the file is as before.
pub set_app_runtime_mode-InStep :
    (default : String) (saving : Saving) (running requested : String) (d : Device)
    → saving ≢ emptied
    → InStep default running d
    → let a = set_app_runtime_mode default saving true requested d in
      InStep default running a.0
      × (((a.1 ≡ ok true) × (load_mode default a.0.mode_file ≡ spelled requested))
          ⊎ (a.0.mode_file ≡ d.mode_file))
unfolding set_app_runtime_mode
set_app_runtime_mode-InStep default saving running requested d n s =
    elim (Bool-cases (is_mode (spelled requested))) [
      | inl e ↦ rw e (
          saved-InStep default saving running (spelled requested) d n
            (mode-Kept (spelled requested) e) s)
      | inr e ↦ rw e (s, inr refl)
    ]
