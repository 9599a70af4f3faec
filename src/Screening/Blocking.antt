-- ===== src/Screening/Blocking.antt =====
-- From the verdict of `check_required` to the block of `recent_failure`.
use bypass_keenetic.Prelude.{
  ℕ, ◌+◌, ◌<◌, ◌≤◌, Bool, true, false, Option, none, some, String, ◌==◌, List, [], ◌∷◌, ◌≡◌, refl,
  arith, eq_iff, Bool-cases, Option-cases, inl, inr, sym, subst,
}
use bypass_keenetic.Prelude.Dict
use bypass_keenetic.Prelude.Dict.{Dict}
use bypass_keenetic.Plan.Json.{Value}
use bypass_keenetic.Screening.Checks.{Check, Contract, Values, Outcome, Calls, check_required}
use bypass_keenetic.Screening.Verdicts.{Told}
use bypass_keenetic.Screening.Passing.{outcome-Explained}
use bypass_keenetic.Screening.Entries.{
  Entry, matching, record_required, check_signature, recorded, own_signature, same_option,
  evidence_of, failed_recently, first_failed, recent_failure,
}
use bypass_keenetic.Screening.Dictionaries.{has-get}
use bypass_keenetic.Screening.Names.{outcome-Fits}
use bypass_keenetic.Screening.Recording.{Stored, NoFailure, recorded-Stored, recorded-NoFailure}

matching_id : (id : String) (cs : List Check) (c : Check) → matching id cs ≡ some c → c.id ≡ id
unfolding matching
matching_id id [] c m = ground arith
matching_id id (d ∷ cs) c m = ground (arith, eq_iff d.id id, matching_id id cs c)

failing_custom :
    (b : Option Bool) (name : String) (v : Values)
    → Told b name v
    → b ≡ some false
    → (name == "telegram") ≡ false
    → (name == "youtube") ≡ false
    → Dict.get name v.custom ≡ some false
failing_custom none name v told e t y = ground arith
failing_custom (some true) name v told e t y = ground arith
failing_custom (some false) name v (inl (n, g)) e t y = ground (arith, eq_iff name "telegram")
failing_custom (some false) name v (inr (inl (n, g))) e t y = ground (arith, eq_iff name "youtube")
failing_custom (some false) name v (inr (inr g)) e t y = g

clean_custom :
    (b : Option Bool) (name : String) (v : Values)
    → Told b name v
    → (b ≡ some false → ⊥)
    → NoFailure v.custom
clean_custom none name v told f = told.checks
clean_custom (some true) name v told f = told.checks
clean_custom (some false) name v told f = absurd (f refl)

module _ (sha256 sha1 : Value → String) where
  signature_made :
      (c : Check)
      → ((v : Value) → (sha256 v == "") ≡ false)
      → (check_signature sha256 sha1 c == "") ≡ false
  unfolding check_signature
  signature_made c hex = hex _

  evidence_found :
      (now : ℕ) (k : Contract) (e : Entry) (id signature : String)
      → (signature == "") ≡ false
      → Stored id false now signature e
      → evidence_of id k e ≡ (some signature, now)
  unfolding evidence_of own_signature Dict.get_or
  evidence_found now k e id signature made s = ground (arith, s.signed, s.time)

  failed_recently_lem :
      (now later : ℕ) (k : Contract) (e : Entry) (c : Check)
      → ((v : Value) → (sha256 v == "") ≡ false)
      → Stored c.id false now (check_signature sha256 sha1 c) e
      → 0 < now
      → now ≤ later
      → later < now + 300
      → failed_recently sha256 sha1 later k e c ≡ true
  unfolding failed_recently same_option
  failed_recently_lem now later k e c hex s a b d =
      let sg = check_signature sha256 sha1 c in
      ground
        (arith, s.result, evidence_found now k e c.id sg (signature_made c hex) s, eq_iff sg sg)

  first_known :
      (later : ℕ) (k : Contract) (e : Entry) (id : String) (c : Check) (cs : List Check)
      → matching id cs ≡ some c
      → failed_recently sha256 sha1 later k e c ≡ true
      → (c' : Check) × (matching (first_failed sha256 sha1 later k e cs) cs ≡ some c')
  unfolding first_failed matching
  first_known later k e id c [] m f = ground arith
  first_known later k e id c (d ∷ cs) m f =
      elim (Bool-cases (failed_recently sha256 sha1 later k e d)) [
        | inl here ↦ (d, ground (arith, eq_iff d.id d.id))
        | inr there ↦
            (let rest = first_known later k e id c cs (ground arith) f in
              let r = first_failed sha256 sha1 later k e cs in
              elim (Bool-cases (d.id == r)) [
                | inl same ↦ (d, ground arith)
                | inr other ↦ (rest.0, ground (arith, rest.1))
              ])
      ]

  no_first :
      (later : ℕ) (k : Contract) (e : Entry) (cs : List Check)
      → NoFailure e.custom
      → first_failed sha256 sha1 later k e cs ≡ ""
  unfolding first_failed failed_recently
  no_first later k e [] h = refl
  no_first later k e (c ∷ cs) h = ground (arith, h c.id, no_first later k e cs h)

module _ {W : Type 0} (calls : Calls W) (timeouts : ℕ × ℕ) (deadline : Option ℕ)
    (sha256 sha1 : Value → String) where
  -- `check_required`, then `record_required`, then `recent_failure`: if the first returns False and names a
  -- custom check, neither of the two services, then once the results are recorded at `now` in any entry
  -- of the cache, `recent_failure` names a check of the contract, at every time from `now` until 300 seconds
  -- after it. Conditions: a digest is no empty text, and `now` is not 0.
  pub check_required-blocks :
      (primary : String) (k : Contract) (w : W) (o : Outcome) (e : Entry) (now later : ℕ)
      → ((v : Value) → (sha256 v == "") ≡ false)
      → (check_required calls timeouts deadline primary k w).0 ≡ o
      → o.verdict ≡ some false
      → (o.reason == "telegram") ≡ false
      → (o.reason == "youtube") ≡ false
      → 0 < now
      → now ≤ later
      → later < now + 300
      → (c : Check) × (matching
            (recent_failure sha256 sha1 later
              (recorded sha256 sha1 now (record_required k o.values) e)
              k)
            k.custom
          ≡ some c)
  unfolding recent_failure
  check_required-blocks primary k w o e now later hex r f t y a b d =
      let fits = outcome-Fits calls timeouts deadline primary k w o r in
      let failing =
        failing_custom o.verdict o.reason o.values
          (outcome-Explained calls timeouts deadline primary k w o r).0 f t y in
      elim (Option-cases (matching o.reason k.custom)) [
        | inl missing ↦ absurd (
            ground
              (arith, fits.known o.reason missing, has-get o.reason false o.values.custom failing))
        | inr (c, m) ↦
            (let s =
                recorded-Stored sha256 sha1 now k o.values c o.reason false e fits.names failing
                  m in
              first_known sha256 sha1 later k _ o.reason c k.custom m (
                failed_recently_lem sha256 sha1 now later k _ c hex
                  (subst
                    (λ x.
                      Stored x false now (check_signature sha256 sha1 c)
                        (recorded sha256 sha1 now (record_required k o.values) e))
                    (sym (matching_id o.reason k.custom c m)) s)
                  a b d))
      ]

  -- `check_required`, then `record_required`, then `recent_failure`: if the first returns True or None, and no
  -- check had failed by the entry, then `recent_failure` names none after the recording, at any time.
  pub check_required_unblocked :
      (primary : String) (k : Contract) (w : W) (o : Outcome) (e : Entry) (now later : ℕ)
      → (check_required calls timeouts deadline primary k w).0 ≡ o
      → (o.verdict ≡ some false → ⊥)
      → NoFailure e.custom
      → recent_failure sha256 sha1 later (recorded sha256 sha1 now (record_required k o.values) e) k
        ≡ ""
  unfolding recent_failure
  check_required_unblocked primary k w o e now later r f h =
      let fits = outcome-Fits calls timeouts deadline primary k w o r in
      no_first sha256 sha1 later k (recorded sha256 sha1 now (record_required k o.values) e)
        k.custom
        (recorded-NoFailure sha256 sha1 now k o.values e fits.names
          (clean_custom o.verdict o.reason o.values
            (outcome-Explained calls timeouts deadline primary k w o r).0 f)
          h)
