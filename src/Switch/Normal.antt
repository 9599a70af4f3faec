-- ===== src/Switch/Normal.antt =====
-- A normalized record holds valid values, and is read back as it was written.
use Prim.Native.String.{count}
use bypass_keenetic.Prelude.{
  ℕ, Bool, true, ◌&&◌, Option, none, some, List, [], ◌∷◌, String, ◌==◌, leb, ◌=ℕ◌, ◌≡◌, refl, arith,
  eq_iff, Bool-cases, inl, inr, subst, All,
}
use bypass_keenetic.Prelude.Text.{strip, strip-strip}
use bypass_keenetic.KeyPool.Catalog.{protocol_display_order, mem}
use bypass_keenetic.Switch.Letters.{lower, all_hex, front, lower-hex, strip-hex}
use bypass_keenetic.Switch.Record.{
  valid_phases, Payload, Transaction, or_started, timed, normalize_transaction, payload_of,
}

-- The values that the code accepts.
unfoldable pub valid : Transaction → Bool
valid t =
    mem t.proto protocol_display_order
    && (count t.original_id =ℕ 40
        && (count t.candidate_id =ℕ 40
            && (all_hex t.original_id
                && (all_hex t.candidate_id
                    && (mem t.phase valid_phases
                        && (leb (count t.original_key) 16384
                            && (strip t.proto == t.proto
                                && strip t.original_key == t.original_key)))))))

timed-valid :
    (p : Payload) (a b : Option ℕ) (t : Transaction)
    → mem (strip p.proto) protocol_display_order ≡ true
    → count (lower (strip p.original_id)) =ℕ 40 ≡ true
    → count (lower (strip p.candidate_id)) =ℕ 40 ≡ true
    → all_hex (lower (strip p.original_id)) ≡ true
    → all_hex (lower (strip p.candidate_id)) ≡ true
    → mem (lower (strip p.phase)) valid_phases ≡ true
    → timed p a b ≡ some t
    → valid t ≡ true
unfolding timed valid
timed-valid p none b t h1 h2 h3 h4 h5 h6 h = ground arith
timed-valid p (some x) none t h1 h2 h3 h4 h5 h6 h = ground arith
timed-valid p (some x) (some y) t h1 h2 h3 h4 h5 h6 h = ground (
  arith,
  eq_iff (strip (strip p.proto)) (strip p.proto),
  strip-strip p.proto,
  eq_iff (strip (strip p.original_key)) (strip p.original_key),
  strip-strip p.original_key,
)

-- `normalize_transaction` returns only records that name a protocol of the catalogue, two ids of 40
-- hexadecimal digits, a phase that the code knows, and a key of at most 16384 characters, with no
-- white space around the protocol and the key.
pub normalize_transaction-valid :
    (p : Payload) (t : Transaction) → normalize_transaction p ≡ some t → valid t ≡ true
unfolding normalize_transaction
normalize_transaction-valid p t h = ground (arith, timed-valid p p.started_at p.updated_at t)

at_member :
    (P : String → Type 0) (x : String) (keys : List String) → mem x keys ≡ true → All P keys → P x
unfolding mem
at_member P x [] h a = ground arith
at_member P x (k ∷ keys) h (a, rest) = elim (Bool-cases (k == x)) [
  | inl e ↦ subst P ((eq_iff k x).0 e) a
  | inr e ↦ at_member P x keys (ground arith) rest
]

phase_kept : (p : String) → mem p valid_phases ≡ true → lower (strip p) ≡ p
phase_kept p h =
    at_member (λ q. lower (strip q) ≡ q) p valid_phases h
      (unfold lower strip in (refl, (refl, (refl, (refl, (refl, tt))))))

-- The record as it is read after it was written.
unfoldable pub read_back : Transaction → Transaction
read_back t = record t {
  trigger = front 32 (strip t.trigger);
  updated_at = or_started t.updated_at t.started_at;
}

-- Reading a valid record that was written gives it again; only white space at the end of a cut
-- trigger, and a time that is not set, are read otherwise.
pub normalize_transaction-payload_of :
    (t : Transaction) → valid t ≡ true → normalize_transaction (payload_of t) ≡ some (read_back t)
unfolding normalize_transaction payload_of valid read_back timed
normalize_transaction-payload_of t h = ground (
  arith,
  strip-hex t.original_id,
  strip-hex t.candidate_id,
  lower-hex t.original_id,
  lower-hex t.candidate_id,
  phase_kept t.phase,
  eq_iff (strip t.proto) t.proto,
  eq_iff (strip t.original_key) t.original_key,
)
