-- ===== src/Serialization/Reading.antt =====
-- What `buffer_to_keyArray` reads.
use amazon_dynamo_db.Prelude.{
  ℕ, zero, suc, ap, sym, pos, ◌≤◌, ◌+◌, ◌*◌, ◌%◌, ◌^◌, ◌<◌, ◌≡◌, refl, ◌∙◌, inl, inr, Bool-cases,
  some, List, [], ◌∷◌, ◌++◌, All, true, arith, int_limit, length, drop,
}
use amazon_dynamo_db.Memory.{ok, Memory, malloc, memcpy}
use amazon_dynamo_db.Memory.Spend.{
  IsAmple, IsAmple-spend, spend, refuse, malloc-IsAmple, malloc-granted, malloc-refused,
  free_first-spend, free-spend, memcpy-take, int_add-pos,
}
use amazon_dynamo_db.Strings.{Bytes}
use amazon_dynamo_db.Commands.Lines.{Lacks}
use amazon_dynamo_db.Commands.Effects.{print_string-append}
use amazon_dynamo_db.LinkedList.Scarce.{AllOrNothing}
use amazon_dynamo_db.Skeleton.{int_of_size}
use amazon_dynamo_db.Serialization.{
  keys_size, htonl, ntohl, copy_strings, fill_array, buffer_to_key_array,
}

-- The keys with their terminators, one after another, and what follows.
unfoldable pub strings : List Bytes → Bytes → Bytes
strings [] rest = rest
strings (key ∷ keys) rest = key ++ 0 ∷ strings keys rest

ntohl-htonl : (n : ℕ) → n < 2 ^ 32 → ntohl (htonl n) ≡ n
unfolding ntohl htonl
ntohl-htonl n h = omega arith

drop-terminated : (key rest : Bytes) → drop (length key + 1) (key ++ 0 ∷ rest) ≡ rest
drop-terminated [] rest = refl
drop-terminated (c ∷ key) rest = ground (arith, drop-terminated key rest)

drop-nil : (n : ℕ) → drop n (let xs : Bytes = [] in xs) ≡ []
drop-nil zero = refl
drop-nil (suc n) = refl

drop-drop : (n k : ℕ) (xs : Bytes) → drop (n + k) xs ≡ drop k (drop n xs)
drop-drop zero k xs = ap (λ j. drop j xs) (omega arith)
drop-drop (suc n) k [] = drop-nil (suc n + k) ∙ sym (drop-nil k)
drop-drop (suc n) k (x ∷ xs) =
    let e : suc n + k ≡ suc (n + k) = omega arith in ap (λ j. drop j (x ∷ xs)) e ∙ drop-drop n k xs

pub int_of_size-pos : (n : ℕ) → n < int_limit → int_of_size n ≡ pos n
unfolding int_of_size
int_of_size-pos n h = ground arith

module _ (keys_buf rest : Bytes) where
  -- The next key stands behind the end of this one.
  next-strings :
      (index : ℕ) (key : Bytes) (keys : List Bytes)
      → drop index keys_buf ≡ strings (key ∷ keys) rest
      → drop (index + (length key + 1)) keys_buf ≡ strings keys rest
  unfolding strings
  next-strings index key keys here =
      drop-drop index (length key + 1) keys_buf
      ∙ (ap (drop (length key + 1)) here ∙ drop-terminated key (strings keys rest))

  copy_strings-strings :
      (keys : List Bytes) (i index : ℕ) {m : Memory}
      → IsAmple m
      → All (Lacks 0) keys
      → index + keys_size keys < int_limit
      → drop index keys_buf ≡ strings keys rest
      → copy_strings (length keys) i (pos index) keys_buf m
        ≡ ok (some keys, spend (length keys) 0 m)
  unfolding copy_strings strings keys_size
  copy_strings-strings [] i index ample plain room here = ground arith
  copy_strings-strings (key ∷ keys) i index {m} ample plain room here = ground (
    arith,
    here,
    print_string-append key (strings keys rest) m plain.0,
    malloc-IsAmple (length key + 1) ample,
    int_of_size-pos (index + (length key + 1)) (omega (arith, room)),
    copy_strings-strings keys (i + 1) (index + (length key + 1)) (IsAmple-spend 1 0 ample) plain.1
        (omega (arith, room)) (next-strings index key keys here),
  )

  copy_strings-AllOrNothing :
      (keys : List Bytes) (i index : ℕ) (m : Memory)
      → All (Lacks 0) keys
      → index + keys_size keys < int_limit
      → drop index keys_buf ≡ strings keys rest
      → AllOrNothing keys
          (length keys)
          (i + 1)
          m
          (copy_strings (length keys) i (pos index) keys_buf m)
  unfolding copy_strings strings keys_size
  copy_strings-AllOrNothing [] i index m plain room here = (m, inl (ground arith, omega arith))
  copy_strings-AllOrNothing (key ∷ keys) i index m plain room here =
      let read = print_string-append key (strings keys rest) m plain.0 in
      let index' = index + (length key + 1) in
      let moved = int_of_size-pos index' (omega (arith, room)) in
      elim (Bool-cases (m.grants m.calls (length key + 1))) [
        | inl granted ↦
            let (m', out) =
              copy_strings-AllOrNothing keys (i + 1) index' (spend 1 0 m) plain.1
                (omega (arith, room)) (next-strings index key keys here) in
            let made = malloc-granted (length key + 1) m granted in
            (
              m',
              elim out [
                | inl (run, count) ↦
                    inl (ground (arith, here, read, moved, made, run), omega (arith, count))
                | inr (run, count) ↦
                    inr (ground (arith, here, read, moved, made, run), omega (arith, count))
              ],
            )
        | inr refused ↦
            let m₁ = refuse m in
            (
              spend 0 (i + 1) m₁,
              inr (
                ground (
                  arith,
                  here,
                  read,
                  malloc-refused (length key + 1) m refused,
                  free_first-spend i m₁,
                  free-spend (spend 0 i m₁),
                ),
                omega arith,
              ),
            )
      ]

pub length-le-keys_size : (keys : List Bytes) → length keys ≤ keys_size keys
unfolding keys_size
length-le-keys_size [] = omega arith
length-le-keys_size (key ∷ keys) = omega (arith, length-le-keys_size keys)

-- A buffer with these keys.
abbrev pub packed : List Bytes → Bytes → Bytes
packed keys rest = htonl (length keys) ++ strings keys rest

header-packed :
    (keys : List Bytes) (rest : Bytes) (m : Memory)
    → memcpy (packed keys rest) 4 m ≡ ok (htonl (length keys), m)
unfolding htonl
header-packed keys rest m = memcpy-take m (packed keys rest) 4 (omega arith)

body-packed : (keys : List Bytes) (rest : Bytes) → drop 4 (packed keys rest) ≡ strings keys rest
unfolding htonl
body-packed keys rest = refl

-- Up to the loop, when the array is granted.
filled-packed :
    (keys : List Bytes) (rest : Bytes) (m : Memory)
    → length keys + 1 < int_limit
    → malloc ((length keys + 1) * 8 % 2 ^ 64) m ≡ ok (true, spend 1 0 m)
    → buffer_to_key_array (some (packed keys rest)) m
      ≡ copy_strings (length keys) 0 (pos 4) (packed keys rest) (spend 1 0 m)
unfolding buffer_to_key_array fill_array int_of_size
filled-packed keys rest m room granted = ground (
  arith,
  header-packed keys rest m,
  ntohl-htonl (length keys) (omega (arith, room)),
  int_add-pos m (length keys) 1 room,
  granted,
)

module _ (keys : List Bytes) (rest : Bytes) (plain : All (Lacks 0) keys)
    (room : 4 + keys_size keys < int_limit) where
  few : length keys + 1 < int_limit
  few = omega (arith, room, length-le-keys_size keys)

  -- The keys are read back, when every request for memory is granted.
  pub buffer_to_key_array-packed :
      {m : Memory}
      → IsAmple m
      → buffer_to_key_array (some (packed keys rest)) m
        ≡ ok (some keys, spend (length keys + 1) 0 m)
  buffer_to_key_array-packed {m} ample =
      filled-packed keys rest m few (malloc-IsAmple ((length keys + 1) * 8 % 2 ^ 64) ample)
      ∙ (copy_strings-strings (packed keys rest) rest keys 0 4 (IsAmple-spend 1 0 ample) plain room
            (body-packed keys rest)
          ∙ ground arith)

  -- Whatever requests the allocator refuses, buffer_to_keyArray of a buffer with the number of its
  -- keys and their strings gives these keys and keeps a block for each and one for the array, or
  -- gives NULL and keeps no block, when no key has a zero byte and the size of the buffer fits an
  -- int.
  pub buffer_to_key_array-AllOrNothing :
      (m : Memory)
      → AllOrNothing keys (length keys + 1) 0 m (buffer_to_key_array (some (packed keys rest)) m)
  unfolding buffer_to_key_array int_of_size
  buffer_to_key_array-AllOrNothing m =
      let size = (length keys + 1) * 8 % 2 ^ 64 in
      elim (Bool-cases (m.grants m.calls size)) [
        | inl granted ↦
            let start = filled-packed keys rest m few (malloc-granted size m granted) in
            let (m', out) =
              copy_strings-AllOrNothing (packed keys rest) rest keys 0 4 (spend 1 0 m) plain room
                (body-packed keys rest) in
            (
              m',
              elim out [
                | inl (run, count) ↦ inl (start ∙ run, omega (arith, count))
                | inr (run, count) ↦ inr (start ∙ run, omega (arith, count))
              ],
            )
        | inr refused ↦ (
          refuse m,
          inr (
            ground (
              arith,
              few,
              header-packed keys rest m,
              ntohl-htonl (length keys) (omega (arith, few)),
              int_add-pos m (length keys) 1 few,
              malloc-refused size m refused,
            ),
            omega arith,
          ),
        )
      ]
