-- ===== src/Serialization.antt =====
-- source/serialization.c: an array of keys becomes one buffer, which starts with their number, and
-- such a buffer an array of keys.
pub mod Bounds
pub mod Reading
pub mod RoundTrip
use amazon_dynamo_db.Prelude.{
  ℕ, zero, suc, ◌+◌, ◌-◌, ◌*◌, ◌/◌, ◌%◌, ◌^◌, ℤ, pos, negsuc, minus_one, Bool, true, false, Option,
  none, some, if◌then◌else◌, List, [], ◌∷◌, ◌++◌, length, leb, ltb, get_or, drop, ◌&&◌, int_limit,
}
use amazon_dynamo_db.Memory.{
  M, pure, crash, out_of_bounds, signed_overflow, malloc, free, free_first, memcpy, int_add,
  size_of_int, ◌>>=◌, ◌>>◌,
}
use amazon_dynamo_db.Commands.{print_string}
use amazon_dynamo_db.Strings.{Bytes}
use amazon_dynamo_db.Skeleton.{int_of_size}

-- The bytes of a buffer by their offsets. Those that were not written are what `malloc` left there.
abbrev pub Buffer : Type 0
Buffer = ℕ → ℕ

abbrev pub overwrite : Buffer → ℕ → Bytes → Buffer
overwrite buf at_ src i =
    if leb at_ i && ltb i (at_ + length src) then get_or src (i - at_) 0 else buf i

-- `memcpy(buf + at, src, length src)` into a buffer of `size` bytes.
pub write_at : ℕ → Buffer → ℕ → Bytes → M Buffer
write_at size buf at_ src =
    if leb (at_ + length src) size then pure (overwrite buf at_ src) else crash out_of_bounds

-- The lengths of the keys with their terminators.
unfoldable pub keys_size : List Bytes → ℕ
keys_size [] = 0
keys_size (key ∷ keys) = length key + 1 + keys_size keys

-- `htonl` of the number of keys, as it stands in memory.
pub htonl : ℕ → Bytes
htonl n = (n / 2 ^ 24 % 256) ∷ (n / 2 ^ 16 % 256) ∷ (n / 2 ^ 8 % 256) ∷ (n % 256) ∷ []

-- The bytes of a string with its terminator.
abbrev pub terminated : Bytes → Bytes
terminated key = key ++ (0 ∷ [])

-- `sizeof(int) + i * key_lengt`, with a product of two `int`. `memcpy` cannot copy a negative length.
pub offset_of : ℕ → ℤ → M ℕ
offset_of i (pos key_lengt) =
    if ltb (i * key_lengt) int_limit then pure (4 + i * key_lengt) else crash signed_overflow
offset_of i (negsuc key_lengt) = crash out_of_bounds

-- The second `for`, from the key `i` on. Its offset is `i` times its own length.
pub write_keys : ℕ → Buffer → ℕ → List Bytes → M Buffer
write_keys size buf i [] = pure buf
write_keys size buf i (key ∷ keys) = do
  at_ ← offset_of i (int_of_size (length key + 1))
  buf' ← write_at size buf at_ (terminated key)
  write_keys size buf' (i + 1) keys

-- The code, and what `*keys_buf` then points to. `out` tells whether `keys_buf` is not NULL, and
-- `fresh` what `malloc` leaves in a block. The size is an `int`.
pub key_array_to_buffer : Buffer → Option (List Bytes) → Bool → M (ℤ × Option Buffer)
key_array_to_buffer fresh none out = pure (minus_one, none)
key_array_to_buffer fresh (some keys) false = pure (minus_one, none)
key_array_to_buffer fresh (some keys) true = do
  let buf_size = int_of_size (4 + keys_size keys)
  granted ← malloc (size_of_int buf_size)
  if granted
      then (do
        counted ← write_at (size_of_int buf_size) fresh 0 (htonl (length keys))
        buf ← write_keys (size_of_int buf_size) counted 0 keys
        pure (buf_size, some buf))
      else pure (minus_one, none)

unfoldable pub ntohl : Bytes → ℕ
ntohl b = get_or b 0 0 * 2 ^ 24 + get_or b 1 0 * 2 ^ 16 + get_or b 2 0 * 2 ^ 8 + get_or b 3 0

-- The keys in front of those that were copied after it.
abbrev put_first : Bytes → Option (List Bytes) → Option (List Bytes)
put_first key none = none
put_first key (some keys) = some (key ∷ keys)

-- The `for`: `n` rounds are left and `i` keys have been copied. `index` is an `int`, to which the sum
-- is converted.
copy_strings : ℕ → ℕ → ℤ → Bytes → M (Option (List Bytes))
copy_strings zero i index keys_buf = pure (some [])
copy_strings (suc n) i (negsuc index) keys_buf = crash out_of_bounds
copy_strings (suc n) i (pos index) keys_buf = do
  key ← print_string (drop index keys_buf)
  granted ← malloc (length key + 1)
  if granted
      then (do
        keys ← copy_strings n (i + 1) (int_of_size (index + (length key + 1))) keys_buf
        pure (put_first key keys))
      else (do free_first i; free; pure none)

-- The array has room for one pointer more than the number says, which is written at the end; a number
-- below 0 points in front of the array.
fill_array : ℤ → Bytes → M (Option (List Bytes))
fill_array (pos n) keys_buf = copy_strings n 0 (pos 4) keys_buf
fill_array (negsuc n) keys_buf = crash out_of_bounds

-- The bytes from `keys_buf` on, if it is not NULL.
pub buffer_to_key_array : Option Bytes → M (Option (List Bytes))
buffer_to_key_array none = pure none
buffer_to_key_array (some keys_buf) = do
  nkeys ← memcpy keys_buf 4
  let size = int_of_size (ntohl nkeys)
  slots ← int_add size (pos 1)
  granted ← malloc (size_of_int slots * 8 % 2 ^ 64)
  if granted then fill_array size keys_buf else pure none
