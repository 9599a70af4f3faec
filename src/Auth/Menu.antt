-- ===== src/Auth/Menu.antt =====
-- The menu states of the chats, oldest first. A chat is the text of its id. The lock makes each
-- operation one step.
use bypass_keenetic.Prelude.{
  ℕ, zero, suc, not, ◌&&◌, Option, none, some, [], ◌∷◌, String, if◌then◌else◌, ltb, ◌=ℕ◌, length,
  is_some,
}
use bypass_keenetic.Prelude.Dict
use bypass_keenetic.Prelude.Dict.{Dict}

pub record MenuState : Type 0 where
  pub level : ℕ
  pub bypass : Option String

abbrev pub States : Type 0
States = Dict MenuState

-- `{'level': 0, 'bypass': None}`
abbrev pub first_menu : MenuState
first_menu = record { level = 0; bypass = none }

-- `states.pop(next(iter(states)), None)`
unfoldable pub pop_oldest : States → States
pop_oldest [] = []
pop_oldest (s ∷ states) = states

-- The loop of `_trim_oldest_states`, on fuel; `none` is a loop that has not ended.
unfoldable pub trim_loop : ℕ → ℕ → States → Option States
trim_loop zero max_entries states =
    if not (max_entries =ℕ 0) && ltb max_entries (length states) then none else some states
trim_loop (suc n) max_entries states =
    let rest = trim_loop n max_entries (pop_oldest states) in
    if not (max_entries =ℕ 0) && ltb max_entries (length states) then rest else some states

-- As many rounds as there are states are enough.
unfoldable pub trim_oldest_states : ℕ → States → Option States
trim_oldest_states max_entries states = trim_loop (length states) max_entries states

-- The states with one for the chat, which is added at the end if it is not there.
unfoldable pub with_chat : String → ℕ → States → Option States
with_chat chat max_entries states =
    if is_some (Dict.get chat states)
    then some states
    else trim_oldest_states max_entries (Dict.put chat first_menu states)

-- The states after, and the copy that is returned.
unfoldable pub get_chat_menu_state : String → ℕ → States → Option (States × MenuState)
get_chat_menu_state chat max_entries states = elim (with_chat chat max_entries states) [
  | none ↦ none
  | some next ↦ some (next, Dict.get_or chat first_menu states)
]

-- `none` is `MENU_STATE_UNSET`.
unfoldable pub changed_menu : Option ℕ → Option (Option String) → MenuState → MenuState
changed_menu level bypass s = record {
  level = elim level [ none ↦ s.level | some n ↦ n ];
  bypass = elim bypass [ none ↦ s.bypass | some b ↦ b ];
}

-- The state is changed where it stands; one that is no longer among the states is changed alone.
unfoldable pub set_chat_menu_state :
    String → Option ℕ → Option (Option String) → ℕ → States → Option States
set_chat_menu_state chat level bypass max_entries states =
    elim (with_chat chat max_entries states) [
      | none ↦ none
      | some next ↦ some (
          if is_some (Dict.get chat next)
          then Dict.put chat (changed_menu level bypass (Dict.get_or chat first_menu states)) next
          else next)
    ]
