-- ===== src/KeyPool/Classification.antt =====
-- Which keys a subscription adds, and when it is refused.
use bypass_keenetic.Prelude.{
  Bool, true, false, not, ◌&&◌, Option, none, some, List, [], ◌∷◌, ◌++◌, String, ◌==◌,
  if◌then◌else◌, any, ◌≡◌, ◌⊎◌, refl, arith, eq_iff, Bool-cases, Option-cases, inl, inr, ap, ◌∙◌,
  sym,
}
use bypass_keenetic.Prelude.Text.{strip}
use bypass_keenetic.Prelude.Dict
use bypass_keenetic.Prelude.Dict.{Dict}
use bypass_keenetic.KeyPool.Catalog.{protocol_display_order, protocol_for_scheme}
use bypass_keenetic.KeyPool.Pools.{Pools, pool}
use bypass_keenetic.KeyPool.Changes.{pool-put, pool-cons}
use bypass_keenetic.KeyPool.Repair.{no_pools}
use bypass_keenetic.KeyPool.Subscription.{
  classify_line, classify_lines, classify_subscription_keys, subscription_key_is_error_placeholder,
}

append-append : (xs ys zs : List String) → (xs ++ ys) ++ zs ≡ xs ++ (ys ++ zs)
append-append [] ys zs = refl
append-append (x ∷ xs) ys zs = ap (λ rest. x ∷ rest) (append-append xs ys zs)

append_nil : (xs : List String) → xs ++ [] ≡ xs
append_nil [] = refl
append_nil (x ∷ xs) = ap (λ rest. x ∷ rest) (append_nil xs)

empty_over : (p : String) (protos : List String) → pool (no_pools protos) p ≡ []
empty_over p [] = unfold pool Dict.get_or Dict.get in refl
empty_over p (q ∷ protos) = ground (arith, pool-cons q p [] (no_pools protos), empty_over p protos)

module _ (split_url : String → Option (String × String)) (vmess_name : String → Option String)
    (unquote casefold : String → String) where
  -- The line is a key that makes the subscription unusable: `urlsplit` raises, or it is a placeholder.
  pub refused : String → Bool
  refused raw = not (strip raw == "") && elim (split_url (strip raw)) [
    | none ↦ true
    | some (scheme, fragment) ↦
        not (protocol_for_scheme scheme "" == "")
        && elim (subscription_key_is_error_placeholder split_url vmess_name unquote casefold
            (strip raw)) [ none ↦ true | some bad ↦ bad ]
  ]

  -- The line is a key of the protocol.
  pub taken : String → String → Bool
  taken p raw = not (strip raw == "") && elim (split_url (strip raw)) [
    | none ↦ false
    | some (scheme, fragment) ↦
        not (protocol_for_scheme scheme "" == "") && protocol_for_scheme scheme "" == p
  ]

  -- The keys of a protocol among the lines.
  unfoldable pub keys_for : String → List String → List String
  keys_for p [] = []
  keys_for p (raw ∷ lines) =
      let rest = keys_for p lines in if taken p raw then strip raw ∷ rest else rest

  line_refused :
      (raw : String) (result : Pools)
      → refused raw ≡ true
      → classify_line split_url vmess_name unquote casefold raw result ≡ none
  unfolding classify_line refused
  line_refused raw result h = ground arith

  -- The pools after a line.
  next_of : String → Pools → Pools
  next_of raw result = elim (classify_line split_url vmess_name unquote casefold raw result) [
    | none ↦ result
    | some next ↦ next
  ]

  line_accepted :
      (raw : String) (result : Pools)
      → refused raw ≡ false
      → classify_line split_url vmess_name unquote casefold raw result ≡ some (next_of raw result)
  unfolding classify_line refused next_of
  line_accepted raw result h = ground arith

  pool-next_of :
      (raw : String) (result : Pools) (p : String)
      → refused raw ≡ false
      → pool (next_of raw result) p
        ≡ (if taken p raw then pool result p ++ strip raw ∷ [] else pool result p)
  unfolding classify_line refused next_of taken
  pool-next_of raw result p h = elim (Option-cases (split_url (strip raw))) [
    | inl e ↦ ground arith
    | inr ((scheme, fragment), e) ↦
        (let proto = protocol_for_scheme scheme "" in
          ground
            (arith, eq_iff proto p, pool-put proto p (pool result proto ++ strip raw ∷ []) result))
  ]

  -- The lines are refused, or each pool gets its keys in their order.
  abbrev pub Classified : String → List String → Pools → Option Pools → Type 0
  Classified p lines result outcome =
      ((any refused lines ≡ true) × (outcome ≡ none))
      ⊎ ((any refused lines ≡ false)
          × ((next : Pools) × (outcome ≡ some next)
              × (pool next p ≡ pool result p ++ keys_for p lines)))

  append_key :
      (p raw : String) (lines : List String) (result : Pools)
      → refused raw ≡ false
      → pool (next_of raw result) p ++ keys_for p lines ≡ pool result p ++ keys_for p (raw ∷ lines)
  unfolding keys_for
  append_key p raw lines result h = elim (Bool-cases (taken p raw)) [
    | inl t ↦
        rw (pool-next_of raw result p h, t)
          (append-append (pool result p) (strip raw ∷ []) (keys_for p lines))
    | inr t ↦ rw (pool-next_of raw result p h, t) refl
  ]

  classify_lines-Classified :
      (p : String) (lines : List String) (result : Pools)
      → Classified p lines result
          (classify_lines split_url vmess_name unquote casefold lines result)
  unfolding classify_lines keys_for
  classify_lines-Classified p [] result =
      inr (refl, (result, refl, sym (append_nil (pool result p))))
  classify_lines-Classified p (raw ∷ lines) result = elim (Bool-cases (refused raw)) [
    | inl e ↦ inl (ground arith, rw (line_refused raw result e, classify_lines) refl)
    | inr e ↦ elim (classify_lines-Classified p lines (next_of raw result)) [
      | inl (a, b) ↦ inl (ground arith, rw (line_accepted raw result e, classify_lines) b)
      | inr (a, (next, b, c)) ↦ inr (
        ground arith,
        (
          next,
          rw (line_accepted raw result e, classify_lines) b,
          c ∙ append_key p raw lines result e,
        ),
      )
    ]
  ]

  -- `classify_subscription_keys` on the decoded lines: it raises `ValueError` exactly if `urlsplit` raises
  -- at one of the lines or one of the keys is a placeholder; otherwise each protocol gets exactly its own
  -- keys, in the order of the lines.
  pub classify_subscription_keys_lem :
      (p : String) (lines : List String)
      → ((any refused lines ≡ true)
          × (classify_subscription_keys split_url vmess_name unquote casefold lines ≡ none))
        ⊎ ((any refused lines ≡ false)
            × ((next : Pools) × (classify_subscription_keys split_url vmess_name unquote casefold
                    lines
                  ≡ some next)
                × (pool next p ≡ keys_for p lines)))
  unfolding classify_subscription_keys
  classify_subscription_keys_lem p lines =
      elim (classify_lines-Classified p lines (no_pools protocol_display_order)) [
        | inl a ↦ inl a
        | inr (a, (next, b, c)) ↦ inr (
          a,
          (
            next,
            b,
            c ∙ ap (λ keys. keys ++ keys_for p lines) (empty_over p protocol_display_order),
          ),
        )
      ]
