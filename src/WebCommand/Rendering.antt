-- ===== src/WebCommand/Rendering.antt =====
-- How often the result of a finished command is shown.
use bypass_keenetic.Prelude.{
  ℕ, Bool, none, some, List, String, ◌≢◌, if◌then◌else◌, ◌≡◌, arith, eq_iff,
}
use bypass_keenetic.KeyPool.Catalog.{mem}
use bypass_keenetic.WebCommand.State.{
  CommandState, is_set, is_time, is_shown, mark_shown, finished, snapshot, clear_command,
  consume_command_state_for_render, finish_command,
}

abbrev pub render : List String → CommandState → CommandState × CommandState
render = consume_command_state_for_render

-- A command that `finish_command` has ended, with a label, at a time that is not 0, in a state that
-- has the key `shown_after_finish`: unless it is one of those cleared at once, the first page shows
-- it with its result and the second one clears it, and every page after that shows the empty state
-- and leaves it. A command that is cleared at once is never shown.
pub finish_command-render :
    (clear : List String) (command result label finished_label : String) (updates : List String)
    (now : ℕ) (s : CommandState) (b : Bool)
    → label ≢ ""
    → now ≢ 0
    → s.shown_after_finish ≡ some b
    → let f = finish_command command result label updates finished_label now s in
      let gone = record (clear_command f) { target_version = none } in
      (render clear (clear_command f) ≡ (clear_command f, clear_command f))
      × (if mem command clear
          then render clear f ≡ (clear_command f, gone)
          else (((render clear f).1 ≡ f)
              × (render clear (render clear f).0 ≡ (clear_command f, gone))))
unfolding consume_command_state_for_render finish_command finished snapshot is_set is_time is_shown
    clear_command mark_shown
finish_command-render clear command result label flabel updates now s b l n m =
    ground (arith, eq_iff label "")
