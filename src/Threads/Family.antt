-- ===== src/Threads/Family.antt =====
-- Values indexed by thread: one is changed, and weights are added up over the first `n`.
use amazon_dynamo_db.Prelude.{
  ℕ, zero, suc, ◌+◌, ◌≤◌, ◌<◌, ◌≡◌, ◌≢◌, refl, ap, arith, if◌then◌else◌, ◌==◌,
}
use native.Mathlib.Decide.{ℕ_discrete, dec_lt}

module _ {ℓ} {A : Type ℓ} where
  abbrev pub update : (ℕ → A) → ℕ → A → ℕ → A
  update f i a j = if i == j then a else f j

  pub update-same : (f : ℕ → A) (i : ℕ) (a : A) → update f i a i ≡ a
  update-same f i a = ground arith

  pub update-other : (f : ℕ → A) (i j : ℕ) (a : A) → j ≢ i → update f i a j ≡ f j
  update-other f i j a h = ground (arith, h)

  pub sum_of : (A → ℕ) → ℕ → (ℕ → A) → ℕ
  sum_of w zero f = 0
  sum_of w (suc n) f = sum_of w n f + w (f n)

  sum_of-update_above :
      (w : A → ℕ) (n : ℕ) (f : ℕ → A) (i : ℕ) (a : A)
      → n ≤ i
      → sum_of w n (update f i a) ≡ sum_of w n f
  unfolding sum_of
  sum_of-update_above w zero f i a h = refl
  sum_of-update_above w (suc n) f i a h = ground (arith, sum_of-update_above w n f i a)

  pub sum_of-update :
      (w : A → ℕ) (n : ℕ) (f : ℕ → A) (i : ℕ) (a : A)
      → i < n
      → sum_of w n (update f i a) + w (f i) ≡ sum_of w n f + w a
  unfolding sum_of
  sum_of-update w zero f i a h = absurd (omega arith)
  sum_of-update w (suc n) f i a h = elim (ℕ_discrete i n) [
    | yes last ↦ ground (arith, sum_of-update_above w n f i a, ap (λ k. w (f k)) last)
    | no other ↦ ground (arith, sum_of-update w n f i a)
  ]

  pub sum_of-const : (w : A → ℕ) (n : ℕ) (a : A) → w a ≡ 0 → sum_of w n (λ i. a) ≡ 0
  unfolding sum_of
  sum_of-const w zero a h = refl
  sum_of-const w (suc n) a h = omega (arith, sum_of-const w n a h)

  pub weight-le-sum_of : (w : A → ℕ) (n : ℕ) (f : ℕ → A) (i : ℕ) → i < n → w (f i) ≤ sum_of w n f
  unfolding sum_of
  weight-le-sum_of w zero f i h = absurd (omega arith)
  weight-le-sum_of w (suc n) f i h = elim (ℕ_discrete i n) [
    | yes last ↦ omega (arith, ap (λ k. w (f k)) last)
    | no other ↦ omega (arith, weight-le-sum_of w n f i (omega arith))
  ]

  -- Two threads weigh no more than all.
  pub weights-le-sum_of :
      (w : A → ℕ) (n : ℕ) (f : ℕ → A) (i j : ℕ) → i < j → j < n → w (f i) + w (f j) ≤ sum_of w n f
  unfolding sum_of
  weights-le-sum_of w zero f i j h k = absurd (omega arith)
  weights-le-sum_of w (suc n) f i j h k = elim (ℕ_discrete j n) [
    | yes last ↦ omega (arith, ap (λ x. w (f x)) last, weight-le-sum_of w n f i (omega arith))
    | no other ↦ omega (arith, weights-le-sum_of w n f i j h (omega arith))
  ]

  -- Where the weights add up to something, a thread weighs something.
  pub positive-sum_of :
      (w : A → ℕ) (n : ℕ) (f : ℕ → A) → 1 ≤ sum_of w n f → (i : ℕ) × (i < n) × (1 ≤ w (f i))
  unfolding sum_of
  positive-sum_of w zero f h = absurd (omega arith)
  positive-sum_of w (suc n) f h = elim (dec_lt 0 (w (f n))) [
    | yes this ↦ (n, omega arith, omega arith)
    | no before ↦
        let found = positive-sum_of w n f (omega arith) in
        (found.0, omega (arith, found.1), found.2)
  ]
