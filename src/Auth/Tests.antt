-- ===== src/Auth/Tests.antt =====
-- Three chats with a limit of two, and one user with a name and one with an id.
use bypass_keenetic.Prelude.{
  not, ◌&&◌, ◌||◌, Option, none, some, List, [], ◌∷◌, String, ◌==◌, if◌then◌else◌, any, ◌≡◌, refl,
  arith,
}
use bypass_keenetic.Prelude.Dict
use bypass_keenetic.Auth.Identities.{Message, build_authorized_identities, authorize_message}
use bypass_keenetic.Auth.Access.{id_listed, is_name, username_of, authorize_message_lem}
use bypass_keenetic.Auth.Menu.{
  States, first_menu, pop_oldest, trim_loop, trim_oldest_states, with_chat, changed_menu,
  set_chat_menu_state,
}
use bypass_keenetic.Auth.Trimming.{newest, trim_loop-newest}

abbrev same : String → String
same s = s

-- Only one text is a number here.
abbrev number : String → Option String
number s = if s == "42" then some s else none

abbrev settings : List (Option String)
settings = some " @owner" ∷ none ∷ some "42" ∷ []

abbrev message : Message
message = record { user_id = some "7"; username = some "owner" }

abbrev chats : States
chats = ("1", first_menu) ∷ ("2", first_menu) ∷ []

authorize_message_example :
    (authorize_message same number message (build_authorized_identities same number settings)).0 ≡ (
      id_listed same number (some "7") settings
      || (not (username_of same number (some "owner") == "")
          && any (is_name same number (username_of same number (some "owner"))) settings))
authorize_message_example = authorize_message_lem same number message settings

trim_loop-newest_example :
    trim_loop 3 2 (("3", first_menu) ∷ chats) ≡ some (newest 2 (("3", first_menu) ∷ chats))
trim_loop-newest_example = trim_loop-newest 3 2 (("3", first_menu) ∷ chats) (omega arith)

oldest_leaves :
    set_chat_menu_state "3" (some 1) none 2 chats
    ≡ some (("2", first_menu) ∷ ("3", record { level = 1; bypass = none }) ∷ [])
unfolding set_chat_menu_state with_chat trim_oldest_states trim_loop pop_oldest changed_menu
    Dict.get Dict.put Dict.get_or
oldest_leaves = refl
