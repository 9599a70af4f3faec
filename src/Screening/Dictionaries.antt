-- ===== src/Screening/Dictionaries.antt =====
-- Dictionaries whose keys are distinct, as assignments make them.
use bypass_keenetic.Prelude.{
  Bool, true, ◌&&◌, ◌||◌, not, some, String, ◌==◌, [], ◌∷◌, ◌≡◌, refl, arith, eq_iff,
}
use bypass_keenetic.Prelude.Dict
use bypass_keenetic.Prelude.Dict.{Dict}
use bypass_keenetic.Screening.Entries.{has}

module _ {ℓ} {V : Type ℓ} where
  unfoldable pub distinct : Dict V → Bool
  distinct [] = true
  distinct ((k, v) ∷ d) = not (has k d) && distinct d

  pub has-put : (k j : String) (v : V) (d : Dict V) → has j (Dict.put k v d) ≡ (k == j || has j d)
  unfolding Dict.put has
  has-put k j v [] = ground arith
  has-put k j v ((i, w) ∷ d) = ground (arith, eq_iff k j, eq_iff i k, eq_iff i j, has-put k j v d)

  pub distinct-put :
      (k : String) (v : V) (d : Dict V) → distinct d ≡ true → distinct (Dict.put k v d) ≡ true
  unfolding Dict.put has distinct
  distinct-put k v [] h = refl
  distinct-put k v ((i, w) ∷ d) h =
      ground (arith, eq_iff i k, eq_iff k i, has-put k i v d, distinct-put k v d)

  pub has-get : (k : String) (v : V) (d : Dict V) → Dict.get k d ≡ some v → has k d ≡ true
  unfolding Dict.get has
  has-get k v [] h = ground arith
  has-get k v ((i, w) ∷ d) h = ground (arith, eq_iff i k, has-get k v d)
