-- ===== src/KeyPool/CleanLists.antt =====
-- A clean list holds stripped, non-empty keys, each once: what `dedupe_key_list` returns.
use bypass_keenetic.Prelude.{
  Bool, true, false, not, ◌&&◌, ◌||◌, List, [], ◌∷◌, ◌++◌, String, ◌==◌, map, ◌≡◌, refl, arith,
  eq_iff,
}
use bypass_keenetic.Prelude.Text.{strip, strip-strip}
use bypass_keenetic.KeyPool.Catalog.{mem}
use bypass_keenetic.KeyPool.Keys.{dedupe_from, dedupe_key_list, new_keys, without}

-- The list is clean and holds none of the keys in `seen`.
unfoldable pub clean : List String → List String → Bool
unfolding mem
clean seen [] = true
clean seen (k ∷ keys) =
    not (k == "") && (strip k == k && (not (mem k seen) && clean (k ∷ seen) keys))

dedupe_from-clean : (seen keys : List String) → clean seen (dedupe_from seen keys) ≡ true
unfolding dedupe_from clean
dedupe_from-clean seen [] = refl
dedupe_from-clean seen (key ∷ keys) = ground (
  arith,
  eq_iff (strip (strip key)) (strip key),
  strip-strip key,
  dedupe_from-clean seen keys,
  dedupe_from-clean (strip key ∷ seen) keys,
)

pub dedupe_of_clean :
    (seen keys : List String) → clean seen keys ≡ true → dedupe_from seen keys ≡ keys
unfolding dedupe_from clean
dedupe_of_clean seen [] h = refl
dedupe_of_clean seen (k ∷ keys) h =
    ground (arith, eq_iff (strip k) k, dedupe_of_clean (k ∷ seen) keys)

mem-dedupe_from :
    (x : String) (seen keys : List String)
    → mem x (dedupe_from seen keys)
      ≡ (not (x == "") && (not (mem x seen) && mem x (map strip keys)))
unfolding dedupe_from mem
mem-dedupe_from x seen [] = ground arith
mem-dedupe_from x seen (key ∷ keys) = ground (
  arith,
  eq_iff (strip key) x,
  eq_iff x "",
  eq_iff (strip key) "",
  mem-dedupe_from x seen keys,
  mem-dedupe_from x (strip key ∷ seen) keys,
)

-- `dedupe_key_list` returns a clean list, holds exactly the non-empty texts that stripping the
-- input gives, and changes nothing when it is applied again.
pub dedupe_key_list-clean :
    (keys : List String) (x : String)
    → (clean [] (dedupe_key_list keys) ≡ true)
      × (mem x (dedupe_key_list keys) ≡ (not (x == "") && mem x (map strip keys)))
      × (dedupe_key_list (dedupe_key_list keys) ≡ dedupe_key_list keys)
unfolding dedupe_key_list
dedupe_key_list-clean keys x = (
  dedupe_from-clean [] keys,
  ground (arith, mem-dedupe_from x [] keys),
  dedupe_of_clean [] (dedupe_from [] keys) (dedupe_from-clean [] keys),
)

-- The keys that `new_keys` adds.
pub mem-new_keys :
    (x : String) (existing keys : List String)
    → mem x (new_keys existing keys) ≡ (not (mem x existing) && mem x keys)
unfolding new_keys
mem-new_keys x existing [] = ground arith
mem-new_keys x existing (k ∷ keys) =
    ground (arith, eq_iff k x, mem-new_keys x existing keys, mem-new_keys x (k ∷ existing) keys)

pub mem-append :
    (x : String) (keys more : List String) → mem x (keys ++ more) ≡ (mem x keys || mem x more)
unfolding mem
mem-append x [] more = refl
mem-append x (k ∷ keys) more = ground (arith, mem-append x keys more)

pub mem-without :
    (x k : String) (keys : List String) → mem x (without k keys) ≡ (mem x keys && not (x == k))
unfolding mem without
mem-without x k [] = refl
mem-without x k (c ∷ keys) =
    ground (arith, eq_iff c x, eq_iff c k, eq_iff x k, mem-without x k keys)

pub without_absent : (k : String) (keys : List String) → mem k keys ≡ false → without k keys ≡ keys
unfolding mem without
without_absent k [] h = refl
without_absent k (c ∷ keys) h = ground (arith, without_absent k keys)

pub dedupe_twice :
    (keys : List String) → dedupe_key_list (dedupe_key_list keys) ≡ dedupe_key_list keys
dedupe_twice keys = (dedupe_key_list-clean keys "").2
