-- ===== src/Probes/Saving.antt =====
-- A payload that is saved and read again.
use Prim.Native.Char.{Char, code}
use Prim.Native.String.{count}
use Prim.Native.String as Str
use Prim.Native.String.count as StrCount
use bypass_keenetic.Prelude.{
  ℕ, zero, suc, leb, ◌-◌, Bool, true, false, ◌&&◌, none, some, List, [], ◌∷◌, String, ◌==◌, all,
  ◌=ℕ◌, ◌≡◌, ◌≢◌, refl, arith, eq_iff, Option-cases, Bool-cases, inl, inr, ap, sym, subst, ◌∙◌,
}
use bypass_keenetic.Prelude.Text.{strip, strip-strip}
use bypass_keenetic.Switch.Letters.{lower, lower_char, is_hex, all_hex, lower-hex, strip-hex}
use bypass_keenetic.KeyPool.Catalog.{mem}
use bypass_keenetic.Routes.Strings.{has_char}
use bypass_keenetic.Probes.Resume.{
  Item, Task, Payload, Resumable, fields, pair, other, first_text, hex_digits, task_id, task_of,
  tasks_of, with_tasks, normalize_payload, saved_items, serializable_payload,
}

letter_of : (n : ℕ) → leb n 5 ≡ true → is_hex (Str.char_at "abcdefghijklmnopqrstuvwxyz" n) ≡ true
unfolding is_hex
letter_of zero h = refl
letter_of (suc zero) h = refl
letter_of (suc (suc zero)) h = refl
letter_of (suc (suc (suc zero))) h = refl
letter_of (suc (suc (suc (suc zero)))) h = refl
letter_of (suc (suc (suc (suc (suc zero))))) h = refl
letter_of (suc (suc (suc (suc (suc (suc n)))))) h = ground arith

digit_lowered :
    (c : Char) → has_char c "0123456789abcdefABCDEF" ≡ true → is_hex (lower_char c) ≡ true
unfolding has_char is_hex lower_char
digit_lowered c h = elim (Bool-cases (leb 65 (code c) && leb (code c) 90)) [
  | inl e ↦ rw (e, lower_char) (letter_of (code c - 65) (ground arith))
  | inr e ↦ rw (e, lower_char) (ground arith)
]

digit_found : (c : Char) → is_hex c ≡ true → has_char c "0123456789abcdefABCDEF" ≡ true
unfolding has_char is_hex
digit_found c h = ground arith

lowered : (s : String) → hex_digits s ≡ true → all_hex (lower s) ≡ true
unfolding hex_digits all_hex lower
lowered Str.[] h = refl
lowered (Str.◌∷◌ c s) h = ground (arith, digit_lowered c, lowered s)

count-lower : (s : String) → count (lower s) ≡ count s
unfolding lower
count-lower Str.[] = refl
count-lower (Str.◌∷◌ c s) =
    let a : count (Str.◌∷◌ (lower_char c) (lower s)) ≡ suc (count (lower s)) =
      λ i. StrCount.cons (lower_char c) (lower s) i in
    let b : count (Str.◌∷◌ c s) ≡ suc (count s) = λ i. StrCount.cons c s i in
    a ∙ (ap suc (count-lower s) ∙ sym b)

digits_of_hex : (s : String) → all_hex s ≡ true → hex_digits s ≡ true
unfolding hex_digits all_hex
digits_of_hex Str.[] h = refl
digits_of_hex (Str.◌∷◌ c s) h = ground (arith, digit_found c, digits_of_hex s)

-- The text of a hash.
abbrev pub is_hash : String → Bool
is_hash s = count s =ℕ 40 && all_hex s

module _ (protocols : List String) (hash_key : String → String) where
  -- A task as `task_id` makes it.
  unfoldable saved : Task → Bool
  saved t = mem t.0 protocols && (strip t.0 == t.0 && is_hash t.1)

  some_text : (s : String) → (count s =ℕ 40) ≡ true → (s == "") ≡ false
  some_text s h = elim (Bool-cases (s == "")) [
    | inl e ↦ (let n : count s ≡ 0 = ap count ((eq_iff s "").0 e) in ground (arith, n, h))
    | inr e ↦ e
  ]

  read_again : (t : Task) → saved t ≡ true → task_id protocols hash_key t.0 t.1 ≡ some t
  unfolding task_id saved
  read_again (proto, key_id) h = ground (
    arith,
    eq_iff (strip proto) proto,
    strip-hex key_id,
    lower-hex key_id,
    digits_of_hex key_id,
    some_text key_id,
  )

  task_id-saved :
      ((key : String) → is_hash (hash_key key) ≡ true)
      → (proto key : String) (t : Task) → task_id protocols hash_key proto key ≡ some t
      → saved t ≡ true
  unfolding task_id saved
  task_id-saved hashes proto key (p, k) h = ground (
    arith,
    eq_iff (strip p) p,
    strip-strip proto,
    lowered (strip key),
    count-lower (strip key),
    hashes (strip key),
  )

  text_kept : (s : String) → first_text s "" ≡ s
  unfolding first_text
  text_kept s = ground (arith, eq_iff s "")

  saved_task :
      (proto key_id : String)
      → task_of protocols hash_key (fields proto "" key_id "" "")
        ≡ task_id protocols hash_key proto key_id
  unfolding task_of
  saved_task proto key_id = rw (text_kept "", text_kept proto, text_kept key_id) refl

  tasks-saved_items :
      (tasks : List Task)
      → all saved tasks ≡ true
      → tasks_of protocols hash_key (saved_items tasks) ≡ tasks
  unfolding tasks_of saved_items
  tasks-saved_items [] h = refl
  tasks-saved_items ((proto, key_id) ∷ tasks) h =
      ground (arith, saved_task proto key_id, read_again (proto, key_id), tasks-saved_items tasks)

  task_of-saved :
      ((key : String) → is_hash (hash_key key) ≡ true)
      → (i : Item) (t : Task) → task_of protocols hash_key i ≡ some t
      → saved t ≡ true
  unfolding task_of
  task_of-saved hashes (fields proto protocol key_id hash key) t h =
      task_id-saved hashes (first_text proto protocol) (first_text key_id (first_text hash key)) t h
  task_of-saved hashes (pair proto key) t h = task_id-saved hashes proto key t h
  task_of-saved hashes other t h = ground arith

  tasks_of-saved :
      ((key : String) → is_hash (hash_key key) ≡ true)
      → (items : List Item) → all saved (tasks_of protocols hash_key items) ≡ true
  unfolding tasks_of
  tasks_of-saved hashes [] = refl
  tasks_of-saved hashes (i ∷ items) = elim (Option-cases (task_of protocols hash_key i)) [
    | inl e ↦ ground (arith, tasks_of-saved hashes items)
    | inr (t, e) ↦ ground (arith, tasks_of-saved hashes items, task_of-saved hashes i t e)
  ]

  same_again :
      (now later : ℕ) (p : Payload) (tasks : List Task)
      → now ≢ 0
      → with_tasks protocols hash_key later
          (serializable_payload (with_tasks protocols hash_key now p tasks))
          tasks
        ≡ with_tasks protocols hash_key now p tasks
  unfolding with_tasks serializable_payload
  same_again now later p tasks n = ground (arith, eq_iff p.scope "", n)

  normal_of :
      (now : ℕ) (p : Payload) (t : Task) (tasks : List Task)
      → tasks_of protocols hash_key p.tasks ≡ t ∷ tasks
      → normalize_payload protocols hash_key now p
        ≡ some (with_tasks protocols hash_key now p (t ∷ tasks))
  unfolding normalize_payload
  normal_of now p t tasks e = ground arith

  -- `normalize_payload` after `serializable_payload`: a payload that was read, saved and read again, at
  -- whatever time, is the same. Conditions: a hash is 40 lower-case hexadecimal digits, and the time of the
  -- first reading is not 0.
  pub normalize-serializable :
      ((key : String) → is_hash (hash_key key) ≡ true)
      → (now later : ℕ) (p : Payload) (r : Resumable) → now ≢ 0
      → normalize_payload protocols hash_key now p ≡ some r
      → normalize_payload protocols hash_key later (serializable_payload r) ≡ some r
  unfolding normalize_payload
  normalize-serializable hashes now later p r n h =
      from_tasks (tasks_of protocols hash_key p.tasks) refl
    where
      from_tasks :
          (tasks : List Task)
          → tasks_of protocols hash_key p.tasks ≡ tasks
          → normalize_payload protocols hash_key later (serializable_payload r) ≡ some r
      from_tasks [] e = ground arith
      from_tasks (t ∷ tasks) e =
          let w = with_tasks protocols hash_key now p (t ∷ tasks) in
          let ok = subst (λ ts. all saved ts ≡ true) e (tasks_of-saved hashes p.tasks) in
          let again : tasks_of protocols hash_key (serializable_payload w).tasks ≡ t ∷ tasks =
            unfold with_tasks serializable_payload in tasks-saved_items (t ∷ tasks) ok in
          let back : normalize_payload protocols hash_key later (serializable_payload w) ≡ some w =
            normal_of later (serializable_payload w) t tasks again
            ∙ ap some (same_again now later p (t ∷ tasks) n) in
          let same : w ≡ r =
            ap (λ o. elim o as (λ x. Resumable) [ none ↦ w | some x ↦ x ])
              (sym (normal_of now p t tasks e) ∙ h) in
          subst (λ x. normalize_payload protocols hash_key later (serializable_payload x) ≡ some x)
            same back
