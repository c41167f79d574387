-- ===== src/Memory.antt =====
-- The C machine under the program: runs that may fault, and the allocator behind `malloc` and
-- `free`. A pointer that the code tests against NULL is an `Option`; the block of memory behind a
-- pointer is the list of its bytes.
pub mod Spend
pub mod Holds
use amazon_dynamo_db.Prelude.{
  ◌-◌, ◌^◌, zero, suc, pos, negsuc, get_elem?, ℕ, ◌+◌, ◌≡◌, Bool, true, false, Option, none, some,
  List, ℤ, take, length, leb, fits_int, ◌+ℤ◌, if◌then◌else◌,
}

-- Undefined behaviour that ends a run.
pub data Fault : Type 0 where
  null_pointer : Fault
  out_of_bounds : Fault
  signed_overflow : Fault
  division_by_zero : Fault

pub data Run {ℓ} (A : Type ℓ) : Type ℓ where
  ok : A → Run A
  fault : Fault → Run A

-- `grants i n` is the answer of the allocator to the `i`-th call of `malloc`, for `n` bytes. The
-- counters are the calls so far, those that were granted, and the blocks that were freed.
pub record Memory : Type 0 where
  pub grants : ℕ → ℕ → Bool
  pub calls : ℕ
  pub allocated : ℕ
  pub freed : ℕ

-- Code that uses the allocator.
abbrev pub M : Type 0 → Type 0
M A = Memory → Run (A × Memory)

abbrev pub pure : {A : Type 0} → A → M A
pure a m = ok (a, m)

abbrev pub crash : {A : Type 0} → Fault → M A
crash f m = fault f

infixl 5 ◌>>=◌ ◌>>◌
abbrev pub ◌>>=◌ : {A B : Type 0} → M A → (A → M B) → M B
◌>>=◌ x f m = elim (x m) [ ok (a, m') ↦ f a m' | fault e ↦ fault e ]

abbrev pub ◌>>◌ : {B : Type 0} → M (Unit {0}) → M B → M B
x >> y = x >>= λ _. y

-- Whether `malloc(n)` returned a block; what the block holds is up to its first writer.
pub malloc : ℕ → M Bool
malloc n m =
    if m.grants m.calls n
    then ok (true, record m { calls = m.calls + 1; allocated = m.allocated + 1 })
    else ok (false, record m { calls = m.calls + 1 })

-- `free(p)` of a pointer that is not NULL.
pub free : M (Unit {0})
free m = ok (tt, record m { freed = m.freed + 1 })

-- `free(p)`, which ignores NULL.
unfoldable pub free_ptr {ℓ} : {A : Type ℓ} → Option A → M (Unit {0})
free_ptr none = pure tt
free_ptr (some _) = free

-- `*p`
abbrev pub deref : {A : Type 0} → Option A → M A
deref none = crash null_pointer
deref (some a) = pure a

-- `memcpy(dst, src, n)` into a fresh block of `n` bytes: the bytes that `dst` then holds.
pub memcpy : List ℕ → ℕ → M (List ℕ)
memcpy src n = if leb n (length src) then pure (take n src) else crash out_of_bounds

-- `int` addition.
pub int_add : ℤ → ℤ → M ℤ
int_add a b = let c = a +ℤ b in if fits_int c then pure c else crash signed_overflow

-- `free(a[0]); …; free(a[n - 1]);`
unfoldable pub free_first : ℕ → M (Unit {0})
free_first zero = pure tt
free_first (suc n) = do free; free_first n

-- `a[i]`, where `a` points to these values.
unfoldable pub index : {A : Type 0} → List A → ℤ → M A
index xs (negsuc i) = crash out_of_bounds
index xs (pos i) = elim (get_elem? xs i) [ none ↦ crash out_of_bounds | some a ↦ pure a ]

-- An `int` as a `size_t`.
abbrev pub size_of_int : ℤ → ℕ
size_of_int (pos n) = n
size_of_int (negsuc n) = 2 ^ 64 - suc n
