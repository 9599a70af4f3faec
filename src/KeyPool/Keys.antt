-- ===== src/KeyPool/Keys.antt =====
-- Lists of keys: stripping, removal of repeats, and the keys that a list does not yet hold.
use bypass_keenetic.Prelude.{◌||◌, List, [], ◌∷◌, String, ◌==◌, if◌then◌else◌, keep, not, map}
use bypass_keenetic.Prelude.Text.{strip}
use bypass_keenetic.KeyPool.Catalog.{mem}

-- The loop of `dedupe_key_list`, with the keys seen.
unfoldable pub dedupe_from : List String → List String → List String
unfolding mem
dedupe_from seen [] = []
dedupe_from seen (key ∷ keys) =
    let k = strip key in
    let skipped = dedupe_from seen keys in
    let kept = dedupe_from (k ∷ seen) keys in if k == "" || mem k seen then skipped else k ∷ kept

unfoldable pub dedupe_key_list : List String → List String
unfolding dedupe_from
dedupe_key_list keys = dedupe_from [] keys

-- The loop that adds keys: those not in `existing`, each once.
unfoldable pub new_keys : List String → List String → List String
unfolding mem
new_keys existing [] = []
new_keys existing (k ∷ keys) =
    let skipped = new_keys existing keys in
    let added = new_keys (k ∷ existing) keys in if mem k existing then skipped else k ∷ added

-- `[line.strip() for line in keys_text.splitlines() if line.strip()]`, on the lines.
unfoldable pub stripped_lines : List String → List String
stripped_lines lines = keep (λ k. not (k == "")) (map strip lines)

-- `[c for c in keys if c != key]`
unfoldable pub without : String → List String → List String
without key [] = []
without key (c ∷ keys) = let rest = without key keys in if c == key then rest else c ∷ rest
