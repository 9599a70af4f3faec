-- ===== src/Plan/History.antt =====
-- The evidence that the store gives comes from a controlled load and a check that followed it.
use bypass_keenetic.Prelude.{
  ℕ, Bool, true, false, ◌&&◌, ◌||◌, not, Option, none, some, String, ◌==◌, List, [], ◌∷◌, Result,
  ok, raise, ◌≡◌, ◌⊎◌, refl, arith, eq_iff, Bool-cases, Option-cases, inl, inr, ap, sym, subst, ◌∙◌,
}
use bypass_keenetic.Prelude.Dict
use bypass_keenetic.Prelude.Dict.{Dict}
use bypass_keenetic.KeyPool.Catalog.{protocol_display_order, mem}
use bypass_keenetic.Plan.Json.{Value}
use bypass_keenetic.Plan.Config.{config_fingerprint}
use bypass_keenetic.Plan.Receipts.{
  Health, Attested, StoreError, read_state, atomic_json, Process, is_text, is_count, record_loaded,
  put_health, record_health,
}

-- A call of the store, with whether its write works.
pub data StoreCall : Type 0 where
  loaded : Bool → Value → Process → StoreCall
  checked : Bool → String → Value → Process → Option Health → StoreCall

abbrev pub is_ok : Result StoreError (Unit {0}) → Bool
is_ok (ok u) = true
is_ok (raise e) = false

module _ (digest : Value → String) where
  unfoldable pub step : StoreCall → Option Attested → Option Attested
  step (loaded w c p) file = (record_loaded digest w c p file).0
  step (checked w q c p h) file = (record_health digest w q c p h file).0

  -- The file after these calls, the last one first; there is no file at the start.
  unfoldable pub replay : List StoreCall → Option Attested
  replay [] = none
  replay (c ∷ calls) = step c (replay calls)

  -- The call wrote a new load.
  pub loads : StoreCall → Bool
  loads (loaded w c p) = is_ok (record_loaded digest w c p none).1
  loads (checked w q c p h) = false

  -- The call is the controlled load that the state tells of.
  abbrev pub IsLoad : StoreCall → Attested → Type 0
  IsLoad (checked w q c p h) s = ⊥
  IsLoad (loaded w c p) s =
      (config_fingerprint digest c ≡ some s.applied_fingerprint)
      × (p.identity ≡ some s.process_identity)
      × (p.generation ≡ some s.generation)
      × (p.observed ≡ some s.observed_fingerprint)

  -- The call is a check of the protocol for the process and the configuration of the state.
  abbrev pub IsCheck : StoreCall → String → Health → Attested → Type 0
  IsCheck (loaded w c p) protocol h s = ⊥
  IsCheck (checked w q c p h') protocol h s =
      (q ≡ protocol)
      × (h' ≡ some h)
      × (config_fingerprint digest c ≡ some s.applied_fingerprint)
      × (p.identity ≡ some s.process_identity)
      × (p.generation ≡ some s.generation)
      × (p.observed ≡ some s.observed_fingerprint)

  -- One of the calls is that load, and no later one wrote a load.
  abbrev pub LoadIn : List StoreCall → Attested → Type 0
  LoadIn [] s = ⊥
  LoadIn (c ∷ calls) s = IsLoad c s ⊎ ((loads c ≡ false) × LoadIn calls s)

  -- One of the calls is that check, and no later one wrote a load.
  abbrev pub CheckIn : List StoreCall → String → Health → Attested → Type 0
  CheckIn [] protocol h s = ⊥
  CheckIn (c ∷ calls) protocol h s =
      IsCheck c protocol h s ⊎ ((loads c ≡ false) × CheckIn calls protocol h s)

  record_loaded_cases :
      (w : Bool) (c : Value) (p : Process) (file : Option Attested)
      → ((s : Attested) × ((record_loaded digest w c p file).0 ≡ some s)
          × IsLoad (loaded w c p) s
          × (s.health ≡ []))
        ⊎ (((record_loaded digest w c p file).0 ≡ file) × (loads (loaded w c p) ≡ false))
  unfolding record_loaded atomic_json loads
  record_loaded_cases w c p file = elim (Option-cases p.identity) [
    | inl e ↦ inr (ground arith, ground arith)
    | inr (i, ei) ↦ elim (Option-cases p.generation) [
      | inl e ↦ inr (ground arith, ground arith)
      | inr (g, eg) ↦ elim (Option-cases p.observed) [
        | inl e ↦ inr (ground arith, ground arith)
        | inr (o, eo) ↦ elim (Option-cases (config_fingerprint digest c)) [
          | inl e ↦ inr (ground arith, ground arith)
          | inr (f, ef) ↦ elim (Bool-cases (i == "" || o == "")) [
            | inl blank ↦ inr (ground arith, ground arith)
            | inr fit ↦ elim (Bool-cases w) [
              | inl written ↦ inl (
                record {
                  process_identity = i;
                  generation = g;
                  applied_fingerprint = f;
                  observed_fingerprint = o;
                  health = [];
                },
                ground arith,
                (ef, ei, eg, eo),
                refl,
              )
              | inr lost ↦ inr (ground arith, ground arith)
            ]
          ]
        ]
      ]
    ]
  ]

  is_text_sound : (o : Option String) (t : String) → is_text o t ≡ true → o ≡ some t
  unfolding is_text
  is_text_sound none t h = ground arith
  is_text_sound (some u) t h = ap some ((eq_iff u t).0 h)

  is_count_sound : (o : Option ℕ) (n : ℕ) → is_count o n ≡ true → o ≡ some n
  unfolding is_count
  is_count_sound none n h = ground arith
  is_count_sound (some m) n h = ap some (ground arith)

  put_health_cases :
      (w : Bool) (q : String) (c : Value) (p : Process) (h : Health) (s : Attested)
      → ((put_health digest w q c p h s (some s)).0 ≡ some s)
        ⊎ (((put_health digest w q c p h s (some s)).0
              ≡ some (record s { health = Dict.put q h s.health }))
            × IsCheck (checked w q c p (some h)) q h s)
  unfolding put_health atomic_json
  put_health_cases w q c p h s =
      elim (Bool-cases (
        is_text p.identity s.process_identity
        && (is_count p.generation s.generation && is_text p.observed s.observed_fingerprint))) [
          | inr other ↦ inl (ground arith)
          | inl alike ↦ elim (Option-cases (config_fingerprint digest c)) [
            | inl e ↦ inl (ground arith)
            | inr (f, ef) ↦ elim (Bool-cases (s.applied_fingerprint == f && w)) [
              | inr other ↦ inl (ground arith)
              | inl fit ↦ inr (
                ground arith,
                (
                  refl,
                  refl,
                  ef ∙ ap some (sym ((eq_iff s.applied_fingerprint f).0 (ground arith))),
                  is_text_sound p.identity s.process_identity (ground arith),
                  is_count_sound p.generation s.generation (ground arith),
                  is_text_sound p.observed s.observed_fingerprint (ground arith),
                ),
              )
            ]
          ]
        ]

  record_health_cases :
      (w : Bool) (q : String) (c : Value) (p : Process) (h : Option Health) (file : Option Attested)
      → ((record_health digest w q c p h file).0 ≡ file)
        ⊎ ((s : Attested) × (good : Health) × (file ≡ some s)
            × ((record_health digest w q c p h file).0
                ≡ some (record s { health = Dict.put q good s.health }))
            × IsCheck (checked w q c p h) q good s)
  unfolding record_health read_state
  record_health_cases w q c p none file = inl refl
  record_health_cases w q c p (some h) none = inl (ground arith)
  record_health_cases w q c p (some h) (some s) =
      elim (Bool-cases (mem q protocol_display_order && not (s.process_identity == ""))) [
        | inr other ↦ inl (ground arith)
        | inl known ↦ elim (put_health_cases w q c p h s) [
          | inl e ↦ inl (ground arith)
          | inr (e, check) ↦ inr (s, h, refl, ground arith, check)
        ]
      ]

  -- What a state tells of the calls that led to it.
  abbrev pub Sound : List StoreCall → Attested → Type 0
  Sound calls s =
      LoadIn calls s
      × ((protocol : String) (h : Health)
          → Dict.get protocol s.health ≡ some h
          → CheckIn calls protocol h s)

  after_put :
      (q protocol : String) (good h : Health) (d : Dict Health)
      → Dict.get protocol (Dict.put q good d) ≡ some h
      → ((q ≡ protocol) × (good ≡ h)) ⊎ (Dict.get protocol d ≡ some h)
  after_put q protocol good h d e = elim (Bool-cases (q == protocol)) [
    | inl same ↦ inl ((eq_iff q protocol).0 same, ground (arith, Dict.get-put q protocol good d))
    | inr other ↦ inr (ground (arith, Dict.get-put q protocol good d))
  ]

  some_same : (s t : Attested) (file : Option Attested) → file ≡ some s → file ≡ some t → s ≡ t
  some_same s t file a b = ground arith

  none_checked :
      (protocol : String) (d : Dict Health) (h : Health) → d ≡ [] → Dict.get protocol d ≡ some h → ⊥
  unfolding Dict.get
  none_checked protocol d h e g = ground arith

  load_kept :
      (calls : List StoreCall) (s : Attested) (d : Dict Health)
      → LoadIn calls s
      → LoadIn calls (record s { health = d })
  load_kept [] s d x = elim x [ ]
  load_kept (checked _ _ _ _ _ ∷ calls) s d (inl load) = elim load [ ]
  load_kept (loaded w c p ∷ calls) s d (inl load) = inl load
  load_kept (c ∷ calls) s d (inr (idle, rest)) = inr (idle, load_kept calls s d rest)

  check_kept :
      (calls : List StoreCall) (protocol : String) (h : Health) (s : Attested) (d : Dict Health)
      → CheckIn calls protocol h s
      → CheckIn calls protocol h (record s { health = d })
  check_kept [] protocol h s d x = elim x [ ]
  check_kept (loaded _ _ _ ∷ calls) protocol h s d (inl check) = elim check [ ]
  check_kept (checked w q c p h' ∷ calls) protocol h s d (inl check) = inl check
  check_kept (c ∷ calls) protocol h s d (inr (idle, rest)) =
      inr (idle, check_kept calls protocol h s d rest)

  pub replay-Sound : (calls : List StoreCall) (s : Attested) → replay calls ≡ some s → Sound calls s
  unfolding replay step loads
  replay-Sound [] s e = ground arith
  replay-Sound (loaded w c p ∷ calls) s e = elim (record_loaded_cases w c p (replay calls)) [
    | inl (t, made, load, fresh) ↦
        subst (Sound (loaded w c p ∷ calls))
          (some_same t s (record_loaded digest w c p (replay calls)).0 made e)
          (inl load, λ protocol h g. absurd (none_checked protocol t.health h fresh g))
    | inr (same, idle) ↦
        (let (load, checks) = replay-Sound calls s (sym same ∙ e) in
          (inr (idle, load), λ protocol h g. inr (idle, checks protocol h g)))
  ]
  replay-Sound (checked w q c p h ∷ calls) s e =
      elim (record_health_cases w q c p h (replay calls)) [
        | inl same ↦
            (let (load, checks) = replay-Sound calls s (sym same ∙ e) in
              (inr (refl, load), λ protocol h' g. inr (refl, checks protocol h' g)))
        | inr (t, good, was, made, check) ↦
            (let (load, checks) = replay-Sound calls t was in
              subst (Sound (checked w q c p h ∷ calls))
                (some_same (record t { health = Dict.put q good t.health }) s
                  (record_health digest w q c p h (replay calls)).0 made e)
                (
                  inr (refl, load_kept calls t (Dict.put q good t.health) load),
                  λ protocol h' g. elim (after_put q protocol good h' t.health g) [
                    | inl (a, b) ↦
                        (let (_, y, f, i, g', o) = check in inl (a, y ∙ ap some b, f, i, g', o))
                    | inr earlier ↦ inr (
                      refl,
                      check_kept calls protocol h' t (Dict.put q good t.health)
                          (checks protocol h' earlier),
                    )
                  ],
                ))
      ]
