-- ===== src/Table/Hash.antt =====
-- `hash_function`: the sum of the characters, modulo the number of lists.
use amazon_dynamo_db.Prelude.{
  ℕ, suc, ◌+◌, ◌-◌, ◌%◌, ◌≤◌, ◌<◌, ◌≡◌, pos, some, [], ◌∷◌, All, arith, int_limit, sub_ℕ,
}
use amazon_dynamo_db.Memory.{ok, Memory}
use amazon_dynamo_db.Memory.Spend.{int_add-pos, int_add-negative}
use amazon_dynamo_db.Strings.{Bytes}
use amazon_dynamo_db.Table.{hash_function, sum_chars, char_to_int, remainder}

-- The sum of the bytes.
unfoldable pub char_sum : Bytes → ℕ
char_sum [] = 0
char_sum (c ∷ key) = c + char_sum key

abbrev pub IsAscii : Bytes → Type 0
IsAscii = All (λ c. c < 128)

-- What `hash_function` handles: an ASCII string whose sum is an `int`.
abbrev pub IsKey : Bytes → Type 0
IsKey k = IsAscii k × (char_sum k < int_limit)

-- The list of a key, in a table of `n` lists.
unfoldable pub home : Bytes → ℕ → ℕ
unfolding char_sum
home k n = char_sum k % n

sum_chars-char_sum :
    (s : ℕ) (k : Bytes) (m : Memory)
    → IsAscii k
    → s + char_sum k < int_limit
    → sum_chars (pos s) k m ≡ ok (pos (s + char_sum k), m)
unfolding sum_chars char_sum char_to_int
sum_chars-char_sum s [] m a h = ground arith
sum_chars-char_sum s (c ∷ k) m a h =
    ground (arith, int_add-pos m s c, sum_chars-char_sum (s + c) k m a.1 (omega arith))

-- The hash of an ASCII key is its home, in the range of the lists.
pub hash_function-home :
    (k : Bytes) (n : ℕ) (m : Memory)
    → IsKey k
    → hash_function (some k) (pos (suc n)) m ≡ ok (pos (home k (suc n)), m)
unfolding hash_function remainder home
hash_function-home k n m h = ground (arith, sum_chars-char_sum 0 k m h.0)

pub home-lt : (k : Bytes) (n : ℕ) → 0 < n → home k n < n
unfolding home
home-lt k n h = omega arith

-- The bytes that are not ASCII count below zero.
unfoldable pub deficit : Bytes → ℕ
deficit [] = 0
deficit (c ∷ key) = 256 - c + deficit key

-- Every byte lies outside ASCII, as in UTF-8 text without ASCII characters.
abbrev pub IsHigh : Bytes → Type 0
IsHigh = All (λ c. (128 ≤ c) × (c < 256))

sum_chars-deficit :
    (s : ℕ) (k : Bytes) (m : Memory)
    → IsHigh k
    → s + deficit k < int_limit
    → sum_chars (sub_ℕ 0 s) k m ≡ ok (sub_ℕ 0 (s + deficit k), m)
unfolding sum_chars deficit char_to_int
sum_chars-deficit s [] m a h = ground arith
sum_chars-deficit s (c ∷ k) m a h =
    let step = int_add-negative s (256 - c) m (omega arith) in
    ground (arith, step, sum_chars-deficit (s + (256 - c)) k m a.1)

-- The hash of a key outside ASCII is zero or negative.
pub hash_function-deficit :
    (k : Bytes) (n : ℕ) (m : Memory)
    → IsHigh k
    → deficit k < int_limit
    → hash_function (some k) (pos (suc n)) m ≡ ok (sub_ℕ 0 (deficit k % suc n), m)
unfolding hash_function remainder
hash_function-deficit k n m a h = ground (arith, sum_chars-deficit 0 k m a)
