-- ===== src/Memory/Spend.antt =====
-- What the memory operations do when the allocator grants every request.
use amazon_dynamo_db.Prelude.{
  refl, Bool, Bool-cases, inl, inr, take, ◌≤◌, sub_ℕ, ◌-◌, minus_one, ℕ, zero, suc, ◌+◌, ◌≡◌, true,
  false, List, pos, length, ◌<◌, le→leb, take-length, int_limit, arith, ℤ, ◌+ℤ◌, fits_int,
}
use amazon_dynamo_db.Memory.{
  ok, fault, out_of_bounds, Memory, malloc, free, free_first, memcpy, int_add,
}

-- Every request is granted.
pub record IsAmple (m : Memory) : Type 0 where
  pub granted : (i n : ℕ) → m.grants i n ≡ true

-- The memory after `a` granted requests and `f` blocks freed.
abbrev pub spend : ℕ → ℕ → Memory → Memory
spend a f m = record m { calls = m.calls + a; allocated = m.allocated + a; freed = m.freed + f }

-- The memory after a request that was refused.
abbrev pub refuse : Memory → Memory
refuse m = record m { calls = m.calls + 1 }

pub malloc-granted :
    (n : ℕ) (m : Memory) → m.grants m.calls n ≡ true → malloc n m ≡ ok (true, spend 1 0 m)
unfolding malloc
malloc-granted n m h = rw h (ground arith)

pub malloc-refused :
    (n : ℕ) (m : Memory) → m.grants m.calls n ≡ false → malloc n m ≡ ok (false, refuse m)
unfolding malloc
malloc-refused n m h = rw h (ground arith)

-- A request is granted or refused.
pub malloc-ok :
    (n : ℕ) (m : Memory) → (granted : Bool) × (m' : Memory) × (malloc n m ≡ ok (granted, m'))
malloc-ok n m = elim (Bool-cases (m.grants m.calls n)) [
  | inl granted ↦ (true, spend 1 0 m, malloc-granted n m granted)
  | inr refused ↦ (false, refuse m, malloc-refused n m refused)
]

module _ {m : Memory} where
  pub IsAmple-spend : (a f : ℕ) → IsAmple m → IsAmple (spend a f m)
  IsAmple-spend a f h = record { granted = h.granted }

  pub malloc-IsAmple : (n : ℕ) → IsAmple m → malloc n m ≡ ok (true, spend 1 0 m)
  unfolding malloc
  malloc-IsAmple n h = rw (h.granted m.calls n) (ground arith)

module _ (m : Memory) where
  pub free-spend : free m ≡ ok (tt, spend 0 1 m)
  unfolding free
  free-spend = ground arith

  pub spend-spend : (a f b g : ℕ) → spend b g (spend a f m) ≡ spend (a + b) (f + g) m
  spend-spend a f b g = ground arith

  pub spend-zero : spend 0 0 m ≡ m
  spend-zero = ground arith

  pub memcpy-all : (xs : List ℕ) → memcpy xs (length xs) m ≡ ok (xs, m)
  unfolding memcpy
  memcpy-all xs = rw (le→leb (length xs) (length xs) (omega arith), take-length xs)

  pub memcpy-take : (xs : List ℕ) (n : ℕ) → n ≤ length xs → memcpy xs n m ≡ ok (take n xs, m)
  unfolding memcpy
  memcpy-take xs n h = ground (arith, le→leb n (length xs) h)

  pub memcpy-short : (xs : List ℕ) (n : ℕ) → length xs < n → memcpy xs n m ≡ fault out_of_bounds
  unfolding memcpy
  memcpy-short xs n h = ground arith

  pub int_add-pos : (a b : ℕ) → a + b < int_limit → int_add (pos a) (pos b) m ≡ ok (pos (a + b), m)
  unfolding int_add
  int_add-pos a b h = ground arith

  pub int_add-fits : (a b : ℤ) → fits_int (a +ℤ b) ≡ true → int_add a b m ≡ ok (a +ℤ b, m)
  unfolding int_add
  int_add-fits a b h = rw h refl

pub free_first-spend : (n : ℕ) (m : Memory) → free_first n m ≡ ok (tt, spend 0 n m)
unfolding free_first
free_first-spend zero m = ground arith
free_first-spend (suc n) m = ground (arith, free-spend m, free_first-spend n (spend 0 1 m))

pub int_add-pred :
    (n : ℕ) (m : Memory) → 0 < n → n < int_limit → int_add (pos n) minus_one m ≡ ok (pos (n - 1), m)
unfolding int_add
int_add-pred n m h k = ground arith

pub int_add-negative :
    (a b : ℕ) (m : Memory)
    → a + b < int_limit
    → int_add (sub_ℕ 0 a) (sub_ℕ 0 b) m ≡ ok (sub_ℕ 0 (a + b), m)
unfolding int_add
int_add-negative a b m h = ground arith
