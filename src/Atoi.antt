-- ===== src/Atoi.antt =====
-- `atoi` of the C library, as glibc has it: `(int) strtol(s, NULL, 10)`.
pub mod Decimal
use amazon_dynamo_db.Prelude.{
  ℕ, zero, suc, ◌+◌, ◌-◌, ◌*◌, ◌%◌, ◌^◌, ℤ, pos, negsuc, Bool, true, false, if◌then◌else◌, List, [],
  ◌∷◌, leb, ltb, ◌==◌, ◌&&◌, ◌||◌,
}
use amazon_dynamo_db.Strings.{Bytes}
use amazon_dynamo_db.Skeleton.{int_of_size}

abbrev pub is_digit : ℕ → Bool
is_digit c = leb b'0' c && leb c b'9'

-- A blank, or one of the control characters from '\t' to '\r'.
abbrev pub is_space : ℕ → Bool
is_space c = (c == 32) || (leb 9 c && leb c 13)

-- The number that the leading digits make, behind those that made `n`.
unfoldable pub digits : ℕ → Bytes → ℕ
digits n [] = n
digits n (c ∷ s) = if is_digit c then digits (n * 10 + (c - b'0')) s else n

-- A `long` as an `int`: its low 32 bits. `strtol` stops at the ends of `long`.
abbrev pub clamp : ℕ → ℕ → ℕ
clamp top n = if leb n top then n else top

pub positive : ℕ → ℤ
positive n = int_of_size (clamp (2 ^ 63 - 1) n)

pub negative : ℕ → ℤ
negative n = int_of_size ((2 ^ 64 - clamp (2 ^ 63) n) % 2 ^ 64)

pub signed_digits : Bytes → ℤ
signed_digits [] = positive (digits 0 [])
signed_digits (c ∷ s) =
    if c == b'-'
    then negative (digits 0 s)
    else positive (digits 0 (if c == b'+' then s else c ∷ s))

unfoldable pub skip_spaces : Bytes → Bytes
skip_spaces [] = []
skip_spaces (c ∷ s) = if is_space c then skip_spaces s else c ∷ s

unfoldable pub atoi : Bytes → ℤ
unfolding signed_digits positive negative
atoi s = signed_digits (skip_spaces s)
