-- ===== src/Plan/Receipts.antt =====
-- `AttestationStore`: the file that says what the runtime has loaded. A file that `_read` does not accept is
-- `none`, but for the test of the identity, which stands in `read`.
use bypass_keenetic.Prelude.{
  ℕ, Bool, true, false, ◌||◌, not, Option, none, some, String, ◌==◌, if◌then◌else◌, [], ◌=ℕ◌,
  Result, ok, raise,
}
use bypass_keenetic.Prelude.Dict
use bypass_keenetic.Prelude.Dict.{Dict}
use bypass_keenetic.KeyPool.Catalog.{protocol_display_order, mem}
use bypass_keenetic.Plan.Json.{Value}
use bypass_keenetic.Plan.Config.{config_fingerprint}
use bypass_keenetic.Plan.Action.{RuntimeEvidence}

pub record Health : Type 0 where
  pub checked_at : ℕ
  pub healthy : Bool

pub record Attested : Type 0 where
  pub process_identity : String
  pub generation : ℕ
  pub applied_fingerprint : String
  pub observed_fingerprint : String
  pub health : Dict Health

pub data StoreError : Type 0 where
  value_error write_error : StoreError

-- `_read`
unfoldable pub read_state : Option Attested → Option Attested
read_state none = none
read_state (some s) = if s.process_identity == "" then none else some s

-- `_atomic_json`: the file after, or the error.
unfoldable pub atomic_json {ℓ} :
    {A : Type ℓ} → Bool → Attested → A → Option Attested → Option Attested × Result StoreError A
atomic_json true s a file = (some s, ok a)
atomic_json false s a file = (file, raise write_error)

-- The arguments that the two methods share; `none` stands for a value of the wrong type, or a negative
-- generation, which equals no stored one.
pub record Process : Type 0 where
  pub identity : Option String
  pub generation : Option ℕ
  pub observed : Option String

-- `value == stored`
unfoldable pub is_text : Option String → String → Bool
is_text none s = false
is_text (some t) s = t == s

unfoldable pub is_count : Option ℕ → ℕ → Bool
is_count none n = false
is_count (some m) n = m =ℕ n

module _ (digest : Value → String) where
  unfoldable pub record_loaded :
      Bool → Value → Process → Option Attested → Option Attested × Result StoreError (Unit {0})
  record_loaded written config p file = elim p.identity [
    | none ↦ (file, raise value_error)
    | some identity ↦ elim p.generation [
      | none ↦ (file, raise value_error)
      | some generation ↦ elim p.observed [
        | none ↦ (file, raise value_error)
        | some observed ↦
            (if identity == "" || observed == ""
              then (file, raise value_error)
              else elim (config_fingerprint digest config) [
                | none ↦ (file, raise value_error)
                | some applied ↦
                    atomic_json written
                      (record {
                        process_identity = identity;
                        generation = generation;
                        applied_fingerprint = applied;
                        observed_fingerprint = observed;
                        health = [];
                      })
                      tt file
              ])
      ]
    ]
  ]

  -- What follows the reading of the state.
  unfoldable pub put_health :
      Bool
      → String
      → Value
      → Process
      → Health
      → Attested
      → Option Attested
      → Option Attested × Result StoreError Bool
  put_health written protocol config p h s file =
      if not (is_text p.identity s.process_identity)
        || (not (is_count p.generation s.generation)
            || not (is_text p.observed s.observed_fingerprint))
      then (file, ok false)
      else elim (config_fingerprint digest config) [
        | none ↦ (file, raise value_error)
        | some applied ↦
            (if not (s.applied_fingerprint == applied)
              then (file, ok false)
              else atomic_json written (record s { health = Dict.put protocol h s.health }) true
                  file)
      ]

  -- The health is `none` where `healthy` is no `bool` or `checked_at` no finite number.
  unfoldable pub record_health :
      Bool
      → String
      → Value
      → Process
      → Option Health
      → Option Attested
      → Option Attested × Result StoreError Bool
  record_health written protocol config p health file = elim health [
    | none ↦ (file, raise value_error)
    | some h ↦
        (if not (mem protocol protocol_display_order)
          then (file, raise value_error)
          else elim (read_state file) [
            | none ↦ (file, ok false)
            | some s ↦ put_health written protocol config p h s file
          ])
  ]

unfoldable pub evidence : String → String → Option Attested → Option RuntimeEvidence
evidence protocol observed file = elim (read_state file) [
  | none ↦ none
  | some s ↦
      (if not (s.observed_fingerprint == observed)
        then none
        else elim (Dict.get protocol s.health) [
          | none ↦ some (record {
            applied_fingerprint = s.applied_fingerprint;
            verified_fingerprint = "";
            process_identity = s.process_identity;
            generation = some s.generation;
            checked_at = some 0;
            healthy = none;
          })
          | some h ↦ some (record {
            applied_fingerprint = s.applied_fingerprint;
            verified_fingerprint = s.applied_fingerprint;
            process_identity = s.process_identity;
            generation = some s.generation;
            checked_at = some h.checked_at;
            healthy = some h.healthy;
          })
        ])
]
