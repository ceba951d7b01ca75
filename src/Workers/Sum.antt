-- ===== src/Workers/Sum.antt =====
-- Sums over the first `n` numbers.
use icsa_artifact.Base.{ℕ, zero, suc, ◌+◌, ◌≤◌, ◌<◌, ◌≡◌, ◌≢◌, refl, arith, dec_lt}

abbrev pub sum : (ℕ → ℕ) → ℕ → ℕ
sum f zero = 0
sum f (suc n) = sum f n + f n

pub sum_same : (f g : ℕ → ℕ) (n : ℕ) → ((j : ℕ) → j < n → g j ≡ f j) → sum g n ≡ sum f n
sum_same f g zero same = refl
sum_same f g (suc n) same =
    omega (arith, sum_same f g n (λ j h. same j (omega arith)), same n (omega arith))

-- A change at one index changes the sum by as much.
pub sum_change :
    (f g : ℕ → ℕ) (n i : ℕ) → i < n → ((j : ℕ) → j ≢ i → g j ≡ f j) → sum g n + f i ≡ sum f n + g i
sum_change f g zero i h same = absurd (omega arith)
sum_change f g (suc n) i h same = elim (dec_lt i n) [
  | yes below ↦ omega (arith, sum_change f g n i below same, same n (omega arith))
  | no last ↦
      let e : i ≡ n = omega arith in
      rw e (omega (arith, sum_same f g n (λ j h'. same j (omega arith))))
]

pub sum-eq-zero : (f : ℕ → ℕ) (n : ℕ) → ((j : ℕ) → j < n → f j ≡ 0) → sum f n ≡ 0
sum-eq-zero f zero h = refl
sum-eq-zero f (suc n) h =
    omega (arith, sum-eq-zero f n (λ j l. h j (omega arith)), h n (omega arith))

pub le-sum : (f : ℕ → ℕ) (n i : ℕ) → i < n → f i ≤ sum f n
le-sum f zero i h = absurd (omega arith)
le-sum f (suc n) i h = elim (dec_lt i n) [
  | yes below ↦ omega (arith, le-sum f n i below)
  | no last ↦ let e : i ≡ n = omega arith in rw e (omega arith)
]

pub sum-le : (f : ℕ → ℕ) (n : ℕ) → ((j : ℕ) → f j ≤ 1) → sum f n ≤ n
sum-le f zero h = omega arith
sum-le f (suc n) h = omega (arith, sum-le f n h, h n)
