-- ===== src/Serialization/RoundTrip.antt =====
-- Keys of one length, written by `keyArray_to_buffer` and read by `buffer_to_keyArray`.
use mathlib.Core.List.{append_assoc}
use native.Mathlib.Decide.{dec_lt}
use amazon_dynamo_db.Prelude.{
  ℕ, zero, suc, ◌+◌, ◌-◌, ◌*◌, ◌≤◌, ◌<◌, ◌≡◌, refl, ap, sym, subst, ◌∙◌, pos, some, List, [], ◌∷◌,
  ◌++◌, All, true, arith, int_limit, length, length-append, get_or,
}
use amazon_dynamo_db.Memory.{ok, Memory}
use amazon_dynamo_db.Memory.Spend.{IsAmple, spend, malloc-IsAmple}
use amazon_dynamo_db.Strings.{Bytes}
use amazon_dynamo_db.Commands.Lines.{Lacks}
use amazon_dynamo_db.Skeleton.{int_of_size}
use amazon_dynamo_db.Serialization.{
  Buffer, offset_of, overwrite, write_at, keys_size, htonl, terminated, write_keys,
  key_array_to_buffer, buffer_to_key_array,
}
use amazon_dynamo_db.Serialization.Reading.{
  int_of_size-pos, strings, packed, buffer_to_key_array-packed,
}

get_or-append_left : (xs ys : Bytes) (j : ℕ) → j < length xs → get_or (xs ++ ys) j 0 ≡ get_or xs j 0
get_or-append_left [] ys j h = absurd (omega arith)
get_or-append_left (x ∷ xs) ys zero h = refl
get_or-append_left (x ∷ xs) ys (suc j) h = get_or-append_left xs ys j (omega arith)

get_or-append_right :
    (xs ys : Bytes) (j : ℕ) → length xs ≤ j → get_or (xs ++ ys) j 0 ≡ get_or ys (j - length xs) 0
get_or-append_right [] ys j h = ap (λ k. get_or ys k 0) (omega arith)
get_or-append_right (x ∷ xs) ys zero h = absurd (omega arith)
get_or-append_right (x ∷ xs) ys (suc j) h =
    get_or-append_right xs ys j (omega arith) ∙ ap (λ k. get_or ys k 0) (omega arith)

-- These bytes stand in the buffer from `at_` on.
abbrev Laid : Buffer → ℕ → Bytes → Type 0
Laid buf at_ src = (j : ℕ) → j < length src → buf (at_ + j) ≡ get_or src j 0

overwrite-Laid : (buf : Buffer) (at_ : ℕ) (src : Bytes) → Laid (overwrite buf at_ src) at_ src
overwrite-Laid buf at_ src j h =
    let inside : at_ + j - at_ ≡ j = omega arith in ground (arith, ap (λ k. get_or src k 0) inside)

overwrite-below :
    (buf : Buffer) (at_ : ℕ) (src : Bytes) (j : ℕ) → j < at_ → overwrite buf at_ src j ≡ buf j
overwrite-below buf at_ src j h = ground arith

-- What stands behind one another stands as one.
append-Laid :
    (buf : Buffer) (at_ : ℕ) (xs ys : Bytes)
    → Laid buf at_ xs
    → Laid buf (at_ + length xs) ys
    → Laid buf at_ (xs ++ ys)
append-Laid buf at_ xs ys first second j h = elim (dec_lt j (length xs)) [
  | yes left ↦ rw (get_or-append_left xs ys j left) (first j left)
  | no right ↦
      let there = second (j - length xs) (omega (arith, h, length-append xs ys, right)) in
      let same_place : at_ + length xs + (j - length xs) ≡ at_ + j = omega (arith, right) in
      rw (get_or-append_right xs ys j (omega (arith, right))) (sym (ap buf same_place) ∙ there)
]

-- The first bytes of a buffer.
unfoldable pub bytes_of : ℕ → Buffer → Bytes
bytes_of zero buf = []
bytes_of (suc n) buf = buf 0 ∷ bytes_of n (λ j. buf (suc j))

bytes_of-Laid : (xs : Bytes) (buf : Buffer) → Laid buf 0 xs → bytes_of (length xs) buf ≡ xs
unfolding bytes_of
bytes_of-Laid [] buf laid = refl
bytes_of-Laid (x ∷ xs) buf laid =
    let first : buf 0 ≡ x = laid 0 (omega arith) in
    let rest : Laid (λ j. buf (suc j)) 0 xs =
      λ j h. ap buf (omega arith) ∙ laid (suc j) (omega (arith, h)) in
    rw (first, bytes_of-Laid xs (λ j. buf (suc j)) rest) refl

length-strings : (keys : List Bytes) → length (strings keys []) ≡ keys_size keys
unfolding strings keys_size
length-strings [] = refl
length-strings (key ∷ keys) =
    omega (arith, length-append key (0 ∷ strings keys []), length-strings keys)

abbrev pub HaveLength : ℕ → List Bytes → Type 0
HaveLength k keys = All (λ key. length key ≡ k) keys

write_at-inside :
    (size : ℕ) (buf : Buffer) (at_ : ℕ) (src : Bytes) (m : Memory)
    → at_ + length src ≤ size
    → write_at size buf at_ src m ≡ ok (overwrite buf at_ src, m)
unfolding write_at
write_at-inside size buf at_ src m h = ground arith

length-htonl : (n : ℕ) → length (htonl n) ≡ 4
unfolding htonl
length-htonl n = refl

offset_of-ok :
    (i k at_ : ℕ) (m : Memory)
    → at_ ≡ 4 + i * (k + 1)
    → at_ + (k + 1) < int_limit
    → offset_of i (int_of_size (k + 1)) m ≡ ok (at_, m)
unfolding offset_of
offset_of-ok i k at_ m e h = ground (arith, int_of_size-pos (k + 1) (omega (arith, h)), e)

write_keys-Laid :
    (k size : ℕ) (keys : List Bytes) (i at_ : ℕ) (buf : Buffer) (m : Memory)
    → HaveLength k keys
    → at_ ≡ 4 + i * (k + 1)
    → at_ + keys_size keys ≤ size
    → size < int_limit
    → (buf' : Buffer) × (write_keys size buf i keys m ≡ ok (buf', m))
      × Laid buf' at_ (strings keys [])
      × ((j : ℕ) → j < at_ → buf' j ≡ buf j)
unfolding write_keys strings keys_size
write_keys-Laid k size [] i at_ buf m long e room top =
    (buf, refl, λ j h. absurd (omega (arith, h)), λ j h. refl)
write_keys-Laid k size (key ∷ keys) i at_ buf m long e room top =
    let wide : length (terminated key) ≡ k + 1 =
      omega (arith, length-append key (0 ∷ []), long.0) in
    let buf₁ = overwrite buf at_ (terminated key) in
    let further : at_ + (k + 1) ≡ 4 + (i + 1) * (k + 1) = ground (arith, e) in
    let (buf', run, laid, below) =
      write_keys-Laid k size keys (i + 1) (at_ + (k + 1)) buf₁ m long.1 further
        (omega (arith, room, long.0)) top in
    let here : offset_of i (int_of_size (length key + 1)) m ≡ ok (at_, m) =
      offset_of-ok i (length key) at_ m (rw long.0 e) (omega (arith, room, top)) in
    let written : write_at size buf at_ (terminated key) m ≡ ok (buf₁, m) =
      write_at-inside size buf at_ (terminated key) m (omega (arith, wide, room, long.0)) in
    let first : Laid buf' at_ (terminated key) = λ j h.
      below (at_ + j) (omega (arith, h, wide)) ∙ overwrite-Laid buf at_ (terminated key) j h in
    (
      buf',
      ground (arith, here, written, run),
      subst (Laid buf' at_) (append_assoc key (0 ∷ []) (strings keys [])) (
          append-Laid buf' at_ (terminated key) (strings keys []) first
            (subst (λ n. Laid buf' (at_ + n) (strings keys [])) (sym wide) laid)),
      λ j h. below j (omega (arith, h)) ∙ overwrite-below buf at_ (terminated key) j h,
    )

-- buffer_to_keyArray reads back the keys that keyArray_to_buffer has written, in a block for each
-- and one for the array, when all keys have one length and no zero byte, every request for memory
-- is granted, and the size of the buffer fits an int.
pub key_array_to_buffer-read :
    (fresh : Buffer) (k : ℕ) (keys : List Bytes) {m m' : Memory}
    → HaveLength k keys
    → All (Lacks 0) keys
    → IsAmple m
    → IsAmple m'
    → 4 + keys_size keys < int_limit
    → (buf : Buffer) × (key_array_to_buffer fresh (some keys) true m
        ≡ ok ((pos (4 + keys_size keys), some buf), spend 1 0 m))
      × (buffer_to_key_array (some (bytes_of (4 + keys_size keys) buf)) m'
          ≡ ok (some keys, spend (length keys + 1) 0 m'))
unfolding key_array_to_buffer int_of_size
key_array_to_buffer-read fresh k keys {m} {m'} long plain ample ample' room =
    let size = 4 + keys_size keys in
    let header : length (htonl (length keys)) ≡ 4 = length-htonl (length keys) in
    let counted = overwrite fresh 0 (htonl (length keys)) in
    let started =
      write_at-inside size fresh 0 (htonl (length keys)) (spend 1 0 m) (omega (arith, header)) in
    let (buf, run, laid, below) =
      write_keys-Laid k size keys 0 4 counted (spend 1 0 m) long (omega arith) (omega arith) room in
    let whole : Laid buf 0 (packed keys []) =
      append-Laid buf 0 (htonl (length keys)) (strings keys [])
        (λ j h.
          below (0 + j) (omega (arith, h, header))
          ∙ overwrite-Laid fresh 0 (htonl (length keys)) j h)
        (subst (λ n. Laid buf (0 + n) (strings keys [])) (sym header) laid) in
    let sized : length (packed keys []) ≡ size =
      omega (
        arith,
        length-append (htonl (length keys)) (strings keys []),
        header,
        length-strings keys,
      ) in
    let contents : bytes_of size buf ≡ packed keys [] =
      ap (λ n. bytes_of n buf) (sym sized) ∙ bytes_of-Laid (packed keys []) buf whole in
    (
      buf,
      ground (arith, malloc-IsAmple size ample, started, run),
      rw contents (buffer_to_key_array-packed keys [] plain room ample'),
    )
