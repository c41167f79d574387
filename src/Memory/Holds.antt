-- ===== src/Memory/Holds.antt =====
-- What holds of the result wherever code that uses the allocator ends.
use amazon_dynamo_db.Prelude.{Bool, true, false, if◌then◌else◌}
use amazon_dynamo_db.Memory.{ok, fault, Memory, M, Run, ◌>>=◌}

abbrev pub Holds : {A : Type 0} → (A → Type 0) → Run (A × Memory) → Type 0
Holds P (ok (a, m)) = P a
Holds P (fault e) = Unit {0}

module _ {A B : Type 0} (Q : B → Type 0) where
  bound :
      (f : A → M B) (r : Run (A × Memory))
      → ((a : A) (m : Memory) → Holds Q (f a m))
      → Holds Q (elim r [ ok (a, m) ↦ f a m | fault e ↦ fault e ])
  bound f (ok (a, m)) h = h a m
  bound f (fault e) h = tt

  pub bind-Holds :
      (x : M A) (f : A → M B)
      → ((a : A) (m : Memory) → Holds Q (f a m))
      → (m : Memory) → Holds Q ((x >>= f) m)
  bind-Holds x f h m = bound f (x m) h

pub if-Holds :
    {A : Type 0} (P : A → Type 0) (b : Bool) (x y : M A) (m : Memory)
    → Holds P (x m)
    → Holds P (y m)
    → Holds P ((if b then x else y) m)
if-Holds P true x y m hx hy = hx
if-Holds P false x y m hx hy = hy
