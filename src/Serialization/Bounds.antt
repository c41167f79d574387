-- ===== src/Serialization/Bounds.antt =====
-- Where `keyArray_to_buffer` writes.
use amazon_dynamo_db.Prelude.{
  ℕ, ◌+◌, ◌*◌, ◌<◌, ◌≤◌, All, ◌≡◌, ◌⊎◌, refl, some, List, [], ◌∷◌, ◌++◌, arith, int_limit, length,
  Bool-cases, inl, inr, true, leb, length-append,
}
use amazon_dynamo_db.Memory.{ok, fault, out_of_bounds, Memory}
use amazon_dynamo_db.Memory.Spend.{IsAmple, spend, malloc-IsAmple}
use amazon_dynamo_db.Strings.{Bytes}
use amazon_dynamo_db.Skeleton.{int_of_size}
use amazon_dynamo_db.Serialization.Reading.{int_of_size-pos}
use amazon_dynamo_db.Serialization.{
  Buffer, offset_of, overwrite, write_at, keys_size, htonl, terminated, write_keys,
  key_array_to_buffer,
}

write_at-outside :
    (size : ℕ) (buf : Buffer) (at_ : ℕ) (src : Bytes) (m : Memory)
    → size < at_ + length src
    → write_at size buf at_ src m ≡ fault out_of_bounds
unfolding write_at
write_at-outside size buf at_ src m h = ground arith

-- A write happens, or it is outside.
write_at-cases :
    (size : ℕ) (buf : Buffer) (at_ : ℕ) (src : Bytes) (m : Memory)
    → ((buf' : Buffer) × (write_at size buf at_ src m ≡ ok (buf', m)))
      ⊎ (write_at size buf at_ src m ≡ fault out_of_bounds)
unfolding write_at
write_at-cases size buf at_ src m = elim (Bool-cases (leb (at_ + length src) size)) [
  | inl inside ↦ inl (overwrite buf at_ src, rw inside refl)
  | inr outside ↦ inr (rw outside refl)
]

-- The product of `n` and the length of the key with its end is an `int`.
abbrev pub Small : ℕ → Bytes → Type 0
Small n key = n * (length key + 1) < int_limit

offset_of-Small :
    (n i : ℕ) (key : Bytes) (m : Memory)
    → i < n
    → Small n key
    → offset_of i (int_of_size (length key + 1)) m ≡ ok (4 + i * (length key + 1), m)
unfolding offset_of
offset_of-Small n i key m h small =
    let below : i * (length key + 1) ≤ n * (length key + 1) = grind (arith, h) in
    let one : 1 * (length key + 1) ≤ n * (length key + 1) = grind (arith, h) in
    let short = int_of_size-pos (length key + 1) (omega (arith, one, small)) in
    ground (arith, below, short, small)

-- A last key that would end outside: the loop writes outside there, if it has not before.
write_keys-outside :
    (n size : ℕ) (keys : List Bytes) (key : Bytes) (i : ℕ) (buf : Buffer) (m : Memory)
    → size < 4 + (i + length keys + 1) * (length key + 1)
    → i + length keys < n
    → All (Small n) (keys ++ key ∷ [])
    → write_keys size buf i (keys ++ key ∷ []) m ≡ fault out_of_bounds
unfolding write_keys
write_keys-outside n size [] key i buf m h few small =
    let wide = length-append key (0 ∷ []) in
    let far : size < 4 + i * (length key + 1) + length (terminated key) = omega (arith, h, wide) in
    ground (
      arith,
      offset_of-Small n i key m (omega (arith, few)) small.0,
      write_at-outside size buf (4 + i * (length key + 1)) (terminated key) m far,
    )
write_keys-outside n size (k ∷ keys) key i buf m h few small =
    let at_ = offset_of-Small n i k m (omega (arith, few)) small.0 in
    elim (write_at-cases size buf (4 + i * (length k + 1)) (terminated k) m) [
      | inl (buf', written) ↦
          let further : size < 4 + (i + 1 + length keys + 1) * (length key + 1) =
            ground (arith, h) in
          ground (
            arith,
            at_,
            written,
            write_keys-outside n size keys key (i + 1) buf' m further (omega (arith, few)) small.1,
          )
      | inr outside ↦ ground (arith, at_, outside)
    ]

keys_size-append :
    (keys : List Bytes) (key : Bytes)
    → keys_size (keys ++ key ∷ []) ≡ keys_size keys + length key + 1
unfolding keys_size
keys_size-append [] key = omega arith
keys_size-append (k ∷ keys) key = omega (arith, keys_size-append keys key)

-- keyArray_to_buffer writes past the end of its buffer if the last key is longer than the average
-- of the keys before it, when malloc grants every request and the size of the buffer, and the
-- product of the number of keys and the length of any of them with its end, fit an int.
pub key_array_to_buffer-overflow :
    (fresh : Buffer) (keys : List Bytes) (key : Bytes) {m : Memory}
    → IsAmple m
    → keys_size keys < length keys * (length key + 1)
    → 4 + keys_size keys + length key + 1 < int_limit
    → All (Small (length keys + 1)) (keys ++ key ∷ [])
    → key_array_to_buffer fresh (some (keys ++ key ∷ [])) true m ≡ fault out_of_bounds
unfolding key_array_to_buffer int_of_size
key_array_to_buffer-overflow fresh keys key {m} ample longer room small =
    let sized = keys_size-append keys key in
    let size : ℕ = 4 + keys_size keys + length key + 1 in
    let wide : size < 4 + (0 + length keys + 1) * (length key + 1) = omega (arith, longer) in
    elim (write_at-cases size fresh 0 (htonl (length (keys ++ key ∷ []))) (spend 1 0 m)) [
      | inl (counted, written) ↦ ground (
        arith,
        sized,
        malloc-IsAmple size ample,
        written,
        write_keys-outside (length keys + 1) size keys key 0 counted (spend 1 0 m) wide
            (omega arith) small,
      )
      | inr outside ↦ ground (arith, sized, malloc-IsAmple size ample, outside)
    ]
