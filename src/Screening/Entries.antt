-- ===== src/Screening/Entries.antt =====
-- The results of custom checks in an entry of the cache of probes: `record_required` and `recent_failure` of
-- app/failover_services.py, `custom_checks_signature` and the block for custom checks of
-- `update_key_probe_cache_entry` in app/probe_cache.py. Times are natural numbers of seconds, and a missing time
-- is 0; `sha256` and `sha1` are the digests of a JSON value's text.
use bypass_keenetic.Prelude.{
  ℕ, ◌-◌, Bool, true, false, ◌&&◌, ◌||◌, not, Option, none, some, String, ◌==◌, if◌then◌else◌, ltb,
  leb, List, [], ◌∷◌,
}
use bypass_keenetic.Prelude.Text.{strip}
use bypass_keenetic.Prelude.Dict
use bypass_keenetic.Prelude.Dict.{Dict}
use bypass_keenetic.Plan.Json.{
  Value, text, arr, obj, Entries, no_entry, entry, no_pair, pair, canonical,
}
use bypass_keenetic.Screening.Checks.{Check, Contract, Values, targets}

-- The fields of an entry that are about custom checks; `custom_ts` and `custom_sig` are of their latest update.
pub record Entry : Type 0 where
  pub custom : Dict Bool
  pub custom_times : Dict ℕ
  pub custom_signatures : Dict String
  pub custom_sig : Option String
  pub custom_ts : ℕ

-- The keyword arguments that `record_required` passes on.
pub record Recorded : Type 0 where
  pub tg_ok : Option Bool
  pub yt_ok : Option Bool
  pub custom : Option (Dict Bool × List Check)

unfoldable pub has {ℓ} : {V : Type ℓ} → String → Dict V → Bool
has k [] = false
has k ((j, v) ∷ d) = j == k || has k d

unfoldable pub texts : List String → Entries
texts [] = no_entry
texts (s ∷ ss) = entry (text s) (texts ss)

-- `next((item for item in checks if item.get('id') == id), None)`
unfoldable pub matching : String → List Check → Option Check
matching id [] = none
matching id (c ∷ cs) = if c.id == id then some c else matching id cs

-- `[c for c in checks if c['id'] in custom]`
unfoldable pub checks_in : Dict Bool → List Check → List Check
checks_in custom [] = []
checks_in custom (c ∷ cs) =
    let rest = checks_in custom cs in if has c.id custom then c ∷ rest else rest

-- `if v is not None`
unfoldable pub joined : Option (Option Bool) → Option Bool
joined none = none
joined (some r) = r

-- `none` where nothing is recorded.
unfoldable pub record_required : Contract → Values → Option Recorded
record_required k v =
    let tg = joined v.tg_ok in
    let yt = joined v.yt_ok in
    elim v.custom [
      | [] ↦ elim tg [
        | none ↦ elim yt [
          | none ↦ none
          | some y ↦ some (record { tg_ok = none; yt_ok = some y; custom = none })
        ]
        | some t ↦ some (record { tg_ok = some t; yt_ok = yt; custom = none })
      ]
      | x ∷ d ↦
          some
            (record { tg_ok = tg; yt_ok = yt; custom = some (x ∷ d, checks_in (x ∷ d) k.custom) })
    ]

-- The test that keeps a recent success.
unfoldable pub skips : Bool → ℕ → String → Bool → Entry → Bool
skips allow now id ok e =
    let before = Dict.get_or id e.custom_ts e.custom_times in
    not allow
    && (not ok
        && (ltb 0 before
            && (ltb (now - before) 300
                && elim (Dict.get id e.custom) [ some true ↦ true | _ ↦ false ])))

unfoldable pub same_option : Option String → Option String → Bool
same_option none none = true
same_option (some a) (some b) = a == b
same_option _ _ = false

-- `sig` and `stamp`
unfoldable pub own_signature : String → Entry → Option String
own_signature id e = elim (Dict.get id e.custom_signatures) [
  | none ↦ none
  | some s ↦ (if s == "" then none else some s)
]

unfoldable pub evidence_of : String → Contract → Entry → Option String × ℕ
evidence_of id k e = elim (own_signature id e) [
  | some s ↦ (some s, Dict.get_or id 0 e.custom_times)
  | none ↦
      (if same_option e.custom_sig k.legacy_signature
        then (Dict.get id k.legacy_checks, e.custom_ts)
        else (Dict.get id e.custom_signatures, Dict.get_or id 0 e.custom_times))
]

module _ (sha256 sha1 : Value → String) where
  -- `signature` and `check_signature`
  unfoldable pub check_signature : Check → String
  check_signature c =
      sha256
        (canonical (obj (pair "id" (text c.id) (pair "urls" (arr (texts (targets c))) no_pair))))

  -- `[str(url or '').strip() for url in raw_urls if ...]`
  unfoldable pub stripped_urls : List String → Entries
  stripped_urls [] = no_entry
  stripped_urls (u ∷ us) =
      let rest = stripped_urls us in if strip u == "" then rest else entry (text (strip u)) rest

  unfoldable pub normalized_checks : List Check → Entries
  normalized_checks [] = no_entry
  normalized_checks (c ∷ cs) =
      let rest = normalized_checks cs in
      let urls : List String = elim c.urls [ none ↦ c.url ∷ [] | some us ↦ us ] in
      if strip c.id == ""
      then rest
      else entry (arr (entry (text (strip c.id)) (entry (arr (stripped_urls urls)) no_entry))) rest

  unfoldable pub custom_checks_signature : List Check → String
  custom_checks_signature checks = sha1 (arr (normalized_checks checks))

  -- One result that is not skipped.
  unfoldable pub put_result : ℕ → Option (List Check) → String → Bool → Entry → Entry
  put_result now checks id ok e = record e {
    custom = Dict.put id ok e.custom;
    custom_times = Dict.put id now e.custom_times;
    custom_signatures = elim checks [
      | none ↦ e.custom_signatures
      | some cs ↦ elim (matching id cs) [
        | none ↦ e.custom_signatures
        | some c ↦ Dict.put id (check_signature c) e.custom_signatures
      ]
    ];
  }

  -- The loop over `custom.items()`: the entry, and whether a result was skipped.
  unfoldable pub put_results :
      Bool → ℕ → Option (List Check) → Dict Bool → Bool → Entry → Entry × Bool
  put_results allow now checks [] skipped e = (e, skipped)
  put_results allow now checks ((id, ok) ∷ items) skipped e = elim (skips allow now id ok e) [
    | true ↦ put_results allow now checks items true e
    | false ↦ put_results allow now checks items skipped (put_result now checks id ok e)
  ]

  -- `if custom is not None: ...`
  unfoldable pub update_custom : Bool → ℕ → Option (List Check) → Dict Bool → Entry → Entry
  update_custom allow now checks custom e =
      let after = put_results allow now checks custom false e in
      let stamped : Entry = if after.1 then after.0 else record after.0 { custom_ts = now } in
      elim checks [
        | none ↦ stamped
        | some cs ↦ record stamped { custom_sig = some (custom_checks_signature cs) }
      ]

  -- The recording of `record_required` in the entry, with `allow_recent_success_downgrade`.
  unfoldable pub recorded : ℕ → Option Recorded → Entry → Entry
  recorded now none e = e
  recorded now (some r) e = elim r.custom [
    | none ↦ e
    | some (custom, checks) ↦ update_custom true now (some checks) custom e
  ]

  -- The check failed by the definition that it has now, less than FAILURE_TTL ago.
  unfoldable pub failed_recently : ℕ → Contract → Entry → Check → Bool
  failed_recently now k e c =
      let found = evidence_of c.id k e in
      elim (Dict.get c.id e.custom) [ some false ↦ true | _ ↦ false ]
      && (same_option found.0 (some (check_signature c))
          && (ltb 0 found.1 && (leb found.1 now && ltb (now - found.1) 300)))

  unfoldable pub first_failed : ℕ → Contract → Entry → List Check → String
  first_failed now k e [] = ""
  first_failed now k e (c ∷ cs) =
      let rest = first_failed now k e cs in if failed_recently now k e c then c.id else rest

  unfoldable pub recent_failure : ℕ → Entry → Contract → String
  recent_failure now e k = first_failed now k e k.custom
