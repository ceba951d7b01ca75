-- ===== src/Scheduler/Ids.antt =====
-- Lists of ids: which numbers are in one, and how many they are.
use icsa_artifact.Base.{
  ℕ, ◌<◌, ◌≡◌, refl, Bool, false, ◌||◌, ◌==◌, List, [], ◌∷◌, if◌then◌else◌, arith, length,
}
use icsa_artifact.Scheduler.{is_in}
use icsa_artifact.Workers.Sum.{sum, sum_change, sum-eq-zero}

abbrev pub mark : Bool → ℕ
mark b = if b then 1 else 0

-- No number twice, and all below `n`.
abbrev pub DistinctBelow : ℕ → List ℕ → Type 0
DistinctBelow n [] = Unit
DistinctBelow n (x ∷ xs) = (x < n) × (is_in xs x ≡ false) × DistinctBelow n xs

pub sum-is_in :
    (n : ℕ) (xs : List ℕ) → DistinctBelow n xs → sum (λ i. mark (is_in xs i)) n ≡ length xs
unfolding is_in
sum-is_in n [] d = sum-eq-zero (λ i. 0) n (λ j h. refl)
sum-is_in n (x ∷ xs) (below, fresh, d) = omega (
  arith,
  sum-is_in n xs d,
  sum_change (λ i. mark (is_in xs i)) (λ i. mark (x == i || is_in xs i)) n x below
      (λ j ne. ground arith),
  at_x,
)
  where
    at_x : (mark (is_in xs x) ≡ 0) × (mark (x == x || is_in xs x) ≡ 1)
    at_x = ground arith
