-- ===== src/Auth/Access.antt =====
-- Who is let in by the users that the settings name.
use Prim.Native.Char.{code}
use Prim.Native.String as Str
use bypass_keenetic.Prelude.{
  Bool, false, not, ◌&&◌, ◌||◌, Option, none, some, List, [], ◌∷◌, String, ◌==◌, ◌≡◌, refl, arith,
  any, ap, if◌then◌else◌, ◌=ℕ◌,
}
use bypass_keenetic.Prelude.Text.{strip, strip-strip}
use bypass_keenetic.KeyPool.Catalog.{mem}
use bypass_keenetic.Routes.Strings.{after_prefix}
use bypass_keenetic.Auth.Identities.{
  Identities, Message, has_id, without_at, normalize_username, add_username, add_identity,
  add_identities, build_authorized_identities, authorize_message,
}

-- The text without a leading `@`.
abbrev pub bare : String → String
bare Str.[] = Str.[]
bare (Str.◌∷◌ c s) = if code c =ℕ 64 then s else Str.◌∷◌ c s

without_at-bare : (s : String) → without_at s ≡ bare s
unfolding without_at after_prefix
without_at-bare Str.[] = refl
without_at-bare (Str.◌∷◌ c s) = ground (arith)

module _ (casefold : String → String) (parse_id : String → Option String) where
  -- The username that a text stands for: without the white space around it, then a leading `@`, and case.
  abbrev pub username_of : Option String → String
  username_of none = ""
  username_of (some value) = casefold (bare (strip value))

  normalize_username_lem :
      (o : Option String) → normalize_username casefold parse_id o ≡ username_of o
  unfolding normalize_username
  normalize_username_lem none = refl
  normalize_username_lem (some value) = ap casefold (without_at-bare (strip value))

  -- The value of the settings is this id, or this username.
  pub is_id : String → Option String → Bool
  is_id i none = false
  is_id i (some value) =
      not (strip value == "") && elim (parse_id (strip value)) [ none ↦ false | some j ↦ j == i ]

  pub is_name : String → Option String → Bool
  is_name n none = false
  is_name n (some value) = not (strip value == "") && elim (parse_id (strip value)) [
    | none ↦ not (username_of (some value) == "") && username_of (some value) == n
    | some j ↦ false
  ]

  ids-add_identity :
      (i : String) (v : Option String) (known : Identities)
      → mem i (add_identity casefold parse_id v known).numeric_ids
        ≡ (is_id i v || mem i known.numeric_ids)
  unfolding add_identity add_username mem is_id
  ids-add_identity i none known = refl
  ids-add_identity i (some value) known = ground arith

  names-add_identity :
      (n : String) (v : Option String) (known : Identities)
      → mem n (add_identity casefold parse_id v known).usernames
        ≡ (is_name n v || mem n known.usernames)
  unfolding add_identity add_username mem is_name
  names-add_identity n none known = refl
  names-add_identity n (some value) known = ground (
    arith,
    normalize_username_lem (some (strip value)),
    strip-strip value,
    ap (λ x. casefold (bare x)) (strip-strip value),
  )

  ids-add_identities :
      (i : String) (values : List (Option String)) (known : Identities)
      → mem i (add_identities casefold parse_id values known).numeric_ids
        ≡ (any (is_id i) values || mem i known.numeric_ids)
  unfolding add_identities
  ids-add_identities i [] known = refl
  ids-add_identities i (v ∷ values) known = ground (
    arith,
    ids-add_identities i values (add_identity casefold parse_id v known),
    ids-add_identity i v known,
  )

  names-add_identities :
      (n : String) (values : List (Option String)) (known : Identities)
      → mem n (add_identities casefold parse_id values known).usernames
        ≡ (any (is_name n) values || mem n known.usernames)
  unfolding add_identities
  names-add_identities n [] known = refl
  names-add_identities n (v ∷ values) known = ground (
    arith,
    names-add_identities n values (add_identity casefold parse_id v known),
    names-add_identity n v known,
  )

  -- The sender has an id that is one of the values.
  pub id_listed : Option String → List (Option String) → Bool
  id_listed none values = false
  id_listed (some i) values = any (is_id i) values

  nobody : (i : String) → mem i [] ≡ false
  unfolding mem
  nobody i = refl

  has_id-build :
      (o : Option String) (values : List (Option String))
      → has_id o (build_authorized_identities casefold parse_id values).numeric_ids
        ≡ id_listed o values
  unfolding has_id id_listed build_authorized_identities
  has_id-build none values = refl
  has_id-build (some i) values =
      ground
        (arith, ids-add_identities i values (record { usernames = []; numeric_ids = [] }), nobody i)

  -- With the identities that `build_authorized_identities` reads from the settings, `authorize_message` lets a
  -- sender in exactly if one of the values is, without white space around it, the sender's id, or is no number
  -- and stands for the sender's username, which is not empty: both are compared without white space around
  -- them, then a leading `@`, and case.
  pub authorize_message_lem :
      (m : Message) (values : List (Option String))
      → (authorize_message casefold parse_id m
          (build_authorized_identities casefold parse_id values)).0
        ≡ (id_listed m.user_id values
            || (not (username_of m.username == "")
                && any (is_name (username_of m.username)) values))
  unfolding authorize_message build_authorized_identities
  authorize_message_lem m values = ground (
    arith,
    normalize_username_lem m.username,
    has_id-build m.user_id values,
    names-add_identities (username_of m.username) values
        (record { usernames = []; numeric_ids = [] }),
    nobody (username_of m.username),
  )
