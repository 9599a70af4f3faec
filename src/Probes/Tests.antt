-- ===== src/Probes/Tests.antt =====
-- A probe that was interrupted with two keys left, one of which has been deleted since.
use bypass_keenetic.Prelude.{true, some, [], ◌∷◌, String, ◌≡◌, refl, arith}
use bypass_keenetic.Prelude.Text.{strip}
use bypass_keenetic.Switch.Letters.{all_hex, is_hex}
use bypass_keenetic.KeyPool.Catalog.{mem}
use bypass_keenetic.Probes.Saving.{is_hash, normalize-serializable}
use bypass_keenetic.KeyPool.Pools.{Pools}
use bypass_keenetic.Probes.Resume.{
  Payload, Resumable, fields, pair, tasks_of, with_tasks, normalize_payload, serializable_payload,
  task_of, task_id, first_text, hex_digits,
}

abbrev same : String → String
same key = key

abbrev pools : Pools
pools = ("vless", "vless://a" ∷ []) ∷ []

abbrev payload : Payload
payload = record {
  tasks = fields "vless" "" "" "" "vless://a" ∷ pair "vless" "vless://gone" ∷ [];
  scope = "";
  checked = 3;
  total = 5;
  started_at = 1000;
  skipped_missing = 0;
}

-- A hash that does not look at the key.
abbrev zeros : String → String
zeros key = "0000000000000000000000000000000000000000"

zeros-is_hash : (key : String) → is_hash (zeros key) ≡ true
unfolding all_hex is_hex
zeros-is_hash key = refl

abbrev read_payload : Resumable
read_payload =
    with_tasks ("vless" ∷ []) zeros 1100 payload (("vless", zeros "") ∷ ("vless", zeros "") ∷ [])

payload_read : normalize_payload ("vless" ∷ []) zeros 1100 payload ≡ some read_payload
unfolding normalize_payload tasks_of task_of task_id first_text mem strip hex_digits
payload_read = refl

normalize-serializable_example :
    normalize_payload ("vless" ∷ []) zeros 1200 (serializable_payload read_payload)
    ≡ some read_payload
normalize-serializable_example =
    normalize-serializable ("vless" ∷ []) zeros zeros-is_hash 1100 1200 payload read_payload
      (λ e. ground arith) payload_read
