-- ===== src/Auth/Memory.antt =====
-- The state of a chat is kept: what is set is read again, and there are no more states than allowed.
use bypass_keenetic.Prelude.{
  ℕ, zero, suc, ◌-◌, ◌≤◌, max, true, ◌||◌, Option, none, some, [], ◌∷◌, ◌++◌, String, leb, ◌=ℕ◌,
  length, drop, ◌≡◌, refl, arith, eq_iff, Bool-cases, Option-cases, inl, inr, is_some,
  length-append,
}
use bypass_keenetic.Prelude.Dict
use bypass_keenetic.Prelude.Dict.{Dict}
use bypass_keenetic.Auth.Menu.{
  MenuState, States, first_menu, trim_oldest_states, with_chat, get_chat_menu_state, changed_menu,
  set_chat_menu_state,
}
use bypass_keenetic.Auth.Trimming.{newest, trim_loop-newest}

put_new :
    (chat : String) (v : MenuState) (states : States)
    → Dict.get chat states ≡ none
    → Dict.put chat v states ≡ states ++ (chat, v) ∷ []
unfolding Dict.get Dict.put
put_new chat v [] h = refl
put_new chat v ((c, s) ∷ states) h = ground (arith, put_new chat v states)

get_added :
    (chat : String) (v : MenuState) (states : States)
    → Dict.get chat states ≡ none
    → Dict.get chat (states ++ (chat, v) ∷ []) ≡ some v
unfolding Dict.get
get_added chat v [] h = ground (arith, eq_iff chat chat)
get_added chat v ((c, s) ∷ states) h = ground (arith, get_added chat v states)

get-drop :
    (n : ℕ) (chat : String) (states : States)
    → Dict.get chat states ≡ none
    → Dict.get chat (drop n states) ≡ none
unfolding Dict.get
get-drop zero chat states h = h
get-drop (suc n) chat [] h = h
get-drop (suc n) chat ((c, s) ∷ states) h = get-drop n chat states (ground arith)

drop-added :
    (n : ℕ) (s : String × MenuState) (states : States)
    → n ≤ length states
    → drop n (states ++ s ∷ []) ≡ drop n states ++ s ∷ []
drop-added zero s states h = refl
drop-added (suc n) s [] h = ground arith
drop-added (suc n) s (r ∷ states) h = drop-added n s states (omega arith)

length-drop : (n : ℕ) (states : States) → length (drop n states) ≡ length states - n
length-drop zero states = omega arith
length-drop (suc n) [] = omega arith
length-drop (suc n) (s ∷ states) = omega (arith, length-drop n states)

length-newest : (m : ℕ) (states : States) → (m =ℕ 0 || leb (length (newest m states)) m) ≡ true
length-newest m states = ground (arith, length-drop (length states - m) states)

-- A chat that was just added is among the newest.
get-newest :
    (m : ℕ) (chat : String) (v : MenuState) (states : States)
    → Dict.get chat states ≡ none
    → Dict.get chat (newest m (Dict.put chat v states)) ≡ some v
get-newest m chat v states h =
    let grown = states ++ (chat, v) ∷ [] in
    let n = length grown - m in
    rw (put_new chat v states h) (elim (Bool-cases (m =ℕ 0)) [
      | inl e ↦ ground (arith, get_added chat v states h)
      | inr e ↦ ground (
        arith,
        drop-added n (chat, v) states,
        length-append states ((chat, v) ∷ []),
        get_added chat v (drop n states) (get-drop n chat states h),
      )
    ])

-- The chat is there, with the state it had or a new one, and there are no more states than before
-- or than the limit.
Entered : String → ℕ → States → States → Type 0
Entered chat m states next =
    (Dict.get chat next ≡ some (Dict.get_or chat first_menu states))
    × ((m =ℕ 0 || leb (length next) (max m (length states))) ≡ true)

with_chat-Entered :
    (chat : String) (m : ℕ) (states : States)
    → (next : States) × (with_chat chat m states ≡ some next) × Entered chat m states next
unfolding with_chat trim_oldest_states Entered Dict.get_or
with_chat-Entered chat m states = elim (Option-cases (Dict.get chat states)) [
  | inl e ↦ (
    newest m (Dict.put chat first_menu states),
    ground (
      arith,
      trim_loop-newest (length (Dict.put chat first_menu states)) m
          (Dict.put chat first_menu states) (omega arith),
    ),
    (
      ground (arith, get-newest m chat first_menu states e),
      ground (arith, length-newest m (Dict.put chat first_menu states)),
    ),
  )
  | inr (s, e) ↦ (states, ground arith, (ground arith, ground arith))
]

length-put :
    (chat : String) (v : MenuState) (states : States)
    → is_some (Dict.get chat states) ≡ true
    → length (Dict.put chat v states) ≡ length states
unfolding Dict.get Dict.put
length-put chat v [] h = ground arith
length-put chat v ((c, s) ∷ states) h = ground (arith, length-put chat v states)

-- `set_chat_menu_state` returns, also when it has to trim: the chat then has the values that were set, and
-- otherwise those that it had or that a new chat has, and there are no more states than there were or
-- than the limit allows.
pub set_chat_menu_state_lem :
    (chat : String) (level : Option ℕ) (bypass : Option (Option String)) (m : ℕ) (states : States)
    → (next : States) × (set_chat_menu_state chat level bypass m states ≡ some next)
      × (Dict.get chat next ≡ some (changed_menu level bypass (Dict.get_or chat first_menu states)))
      × ((m =ℕ 0 || leb (length next) (max m (length states))) ≡ true)
unfolding set_chat_menu_state Entered
set_chat_menu_state_lem chat level bypass m states =
    let (nx, e, (g, l)) = with_chat-Entered chat m states in
    let v = changed_menu level bypass (Dict.get_or chat first_menu states) in
    (
      Dict.put chat v nx,
      ground (arith, e, g),
      ground (arith, Dict.get-put chat chat v nx, eq_iff chat chat),
      ground (arith, l, length-put chat v nx, g),
    )

-- `get_chat_menu_state` after `set_chat_menu_state` returns what was set, and changes no state.
pub get-set :
    (chat : String) (level : Option ℕ) (bypass : Option (Option String)) (m : ℕ) (states : States)
    → (next : States) × (set_chat_menu_state chat level bypass m states ≡ some next)
      × (get_chat_menu_state chat m next
          ≡ some (next, changed_menu level bypass (Dict.get_or chat first_menu states)))
unfolding get_chat_menu_state with_chat Dict.get_or
get-set chat level bypass m states =
    let (next, e, g, l) = set_chat_menu_state_lem chat level bypass m states in
    (next, e, ground (arith, g))
