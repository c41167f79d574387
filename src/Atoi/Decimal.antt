-- ===== src/Atoi/Decimal.antt =====
-- Decimal numbers of a given width, and their value.
use amazon_dynamo_db.Prelude.{
  negsuc, ℕ, zero, suc, ◌+◌, ◌-◌, ◌*◌, ◌/◌, ◌%◌, ◌^◌, ◌≤◌, ◌<◌, ◌≡◌, refl, ap, ◌∙◌, pos, [], ◌∷◌,
  ◌++◌, All, All-append, arith, length, length-append, int_limit,
}
use amazon_dynamo_db.Strings.{Bytes}
use amazon_dynamo_db.Skeleton.{int_of_size}
use amazon_dynamo_db.Atoi.{negative, digits, skip_spaces, atoi, signed_digits, positive}

-- The last `w` decimal digits of `n`.
unfoldable pub decimal : ℕ → ℕ → Bytes
decimal zero n = []
decimal (suc w) n = decimal w (n / 10) ++ (b'0' + n % 10) ∷ []

abbrev pub IsDigit : ℕ → Type 0
IsDigit c = (b'0' ≤ c) × (c ≤ b'9')

pub decimal-IsDigit : (w n : ℕ) → All IsDigit (decimal w n)
unfolding decimal
decimal-IsDigit zero n = tt
decimal-IsDigit (suc w) n =
    All-append IsDigit (decimal w (n / 10)) _ (decimal-IsDigit w (n / 10)) (omega arith, tt)

digits-append :
    (a : ℕ) (s rest : Bytes) → All IsDigit s → digits a (s ++ rest) ≡ digits (digits a s) rest
unfolding digits
digits-append a [] rest h = refl
digits-append a (c ∷ s) rest h = ground (arith, digits-append (a * 10 + (c - b'0')) s rest h.1, h.0)

-- The digits of a number that has at most `w` make the number.
pub digits-decimal : (w n : ℕ) → n < 10 ^ w → digits 0 (decimal w n) ≡ n
unfolding digits decimal
digits-decimal zero n h = omega arith
digits-decimal (suc w) n h =
    let fewer : n / 10 < 10 ^ w = grind arith in
    ground (
      arith,
      digits-append 0 (decimal w (n / 10)) ((b'0' + n % 10) ∷ []) (decimal-IsDigit w (n / 10)),
      digits-decimal w (n / 10) fewer,
    )

pub length-decimal : (w n : ℕ) → length (decimal w n) ≡ w
unfolding decimal
length-decimal zero n = refl
length-decimal (suc w) n =
    omega
      (arith, length-append (decimal w (n / 10)) ((b'0' + n % 10) ∷ []), length-decimal w (n / 10))

positive-pos : (n : ℕ) → n < int_limit → positive n ≡ pos n
unfolding positive int_of_size
positive-pos n h = ground arith

atoi-digits :
    (s : Bytes) → All IsDigit s → 0 < length s → digits 0 s < int_limit → atoi s ≡ pos (digits 0 s)
unfolding atoi skip_spaces signed_digits
atoi-digits [] d h small = absurd (omega arith)
atoi-digits (c ∷ s) d h small = ground (arith, d.0, positive-pos (digits 0 (c ∷ s)) small)

-- `atoi` reads back a decimal number that is an `int`.
pub atoi-decimal : (w n : ℕ) → n < 10 ^ suc w → n < int_limit → atoi (decimal (suc w) n) ≡ pos n
atoi-decimal w n fits small =
    let value = digits-decimal (suc w) n fits in
    let wide = length-decimal (suc w) n in
    let read =
      atoi-digits (decimal (suc w) n) (decimal-IsDigit (suc w) n) (omega arith)
        (omega (arith, value)) in
    read ∙ ap pos value

-- A minus sign in front.
pub atoi-negative :
    (w n : ℕ)
    → n < 10 ^ suc w
    → 0 < n
    → n < int_limit
    → atoi (b'-' ∷ decimal (suc w) n) ≡ negsuc (n - 1)
unfolding atoi skip_spaces signed_digits negative int_of_size
atoi-negative w n fits some_n small =
    let value = digits-decimal (suc w) n fits in ground (arith, value)
