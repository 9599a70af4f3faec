-- ===== src/Auth/Identities.antt =====
-- The authorized users and the decision on a message. `casefold` is `str.casefold`. `parse_id` is the
-- decimal text of `int(text)`, `none` where `text.lstrip('-').isdigit()` is False or `int` raises; an id
-- is its decimal text.
use bypass_keenetic.Prelude.{
  Bool, true, false, not, ◌&&◌, Option, none, some, List, [], ◌∷◌, String, ◌==◌, if◌then◌else◌,
}
use bypass_keenetic.Prelude.Text.{strip}
use bypass_keenetic.Routes.Strings.{after_prefix}
use bypass_keenetic.KeyPool.Catalog.{mem}

-- Usernames and ids.
pub record Identities : Type 0 where
  pub usernames : List String
  pub numeric_ids : List String

-- `if normalized.startswith('@'): normalized = normalized[1:]`
unfoldable pub without_at : String → String
without_at s = elim (after_prefix "@" s) [ none ↦ s | some rest ↦ rest ]

-- What the code reads of a message; an attribute that is missing is `None`.
pub record Message : Type 0 where
  pub user_id : Option String
  pub username : Option String

unfoldable pub has_id : Option String → List String → Bool
has_id none ids = false
has_id (some i) ids = mem i ids

module _ (casefold : String → String) (parse_id : String → Option String) where
  unfoldable pub normalize_username : Option String → String
  normalize_username none = ""
  normalize_username (some value) = casefold (without_at (strip value))

  unfoldable pub add_username : String → Identities → Identities
  add_username text known =
      let name = normalize_username (some text) in
      if name == "" then known else record known { usernames = name ∷ known.usernames }

  -- One round of the loop; a set is a list in which the order does not matter.
  unfoldable pub add_identity : Option String → Identities → Identities
  add_identity none known = known
  add_identity (some value) known =
      let text = strip value in
      if text == "" then known else elim (parse_id text) [
        | some i ↦ record known { numeric_ids = i ∷ known.numeric_ids }
        | none ↦ add_username text known
      ]

  unfoldable pub add_identities : List (Option String) → Identities → Identities
  add_identities [] known = known
  add_identities (v ∷ values) known = add_identities values (add_identity v known)

  unfoldable pub build_authorized_identities : List (Option String) → Identities
  build_authorized_identities values =
      add_identities values (record { usernames = []; numeric_ids = [] })

  -- Whether the user is authorized, and the reason.
  unfoldable pub authorize_message : Message → Identities → Bool × String
  authorize_message m known =
      let name = normalize_username m.username in
      if has_id m.user_id known.numeric_ids
      then (true, "user_id")
      else if not (name == "") && mem name known.usernames
      then (true, "username")
      else if name == ""
      then (false, "missing_username")
      else (false, "unauthorized")
