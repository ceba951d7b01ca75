-- ===== src/Dag/Partition.antt =====
-- The row ranges of the threads of `dependencyMatrix`.
use icsa_artifact.Base.{ℕ, zero, suc, ◌≤◌, ◌<◌, ◌≡◌, arith, dec_lt}
use icsa_artifact.Dag.{first_row, past_row}

module _ (total threads : ℕ) where
  pub first_row-zero : first_row total threads 0 ≡ 0
  unfolding first_row
  first_row-zero = ground arith

  -- Each range begins where the one before it ends.
  pub first_row-suc : (pid : ℕ) → first_row total threads (suc pid) ≡ past_row total threads pid
  unfolding past_row
  first_row-suc pid = ground arith

  pub first_row-le : (pid : ℕ) → first_row total threads pid ≤ past_row total threads pid
  unfolding past_row
  first_row-le pid = ground arith

  pub first_row-threads : 0 < threads → first_row total threads threads ≡ total
  unfolding first_row
  first_row-threads h = grind arith

  pub first_row_mono : (p q : ℕ) → p ≤ q → first_row total threads p ≤ first_row total threads q
  unfolding first_row
  first_row_mono p q h = grind arith

  -- The thread that has row `a`, among the first `k`.
  owner_below :
      (k a : ℕ)
      → a < first_row total threads k
      → (pid : ℕ) × (pid < k) × (first_row total threads pid ≤ a) × (a < past_row total threads pid)
  owner_below zero a h = absurd (omega (arith, first_row-zero))
  owner_below (suc k) a h = elim (dec_lt a (first_row total threads k)) [
    | yes below ↦ let (pid, lt, lo, hi) = owner_below k a below in (pid, omega arith, lo, hi)
    | no here ↦ (k, omega arith, omega arith, omega (arith, first_row-suc k))
  ]

  -- Where two threads have a row in common, they are the same thread.
  owner_unique :
      (p q a : ℕ)
      → first_row total threads p ≤ a
      → a < past_row total threads p
      → first_row total threads q ≤ a
      → a < past_row total threads q
      → p ≡ q
  owner_unique p q a lo_p hi_p lo_q hi_q = elim (dec_lt p q) [
    | yes lt ↦ absurd (omega (arith, first_row-suc p, first_row_mono (suc p) q lt))
    | no ge ↦ elim (dec_lt q p) [
      | yes lt ↦ absurd (omega (arith, first_row-suc q, first_row_mono (suc q) p lt))
      | no le ↦ omega arith
    ]
  ]

-- With one thread at least, every row of the matrix lies in the range of exactly one thread.
pub rows_partitioned :
    (total threads a : ℕ)
    → 0 < threads
    → a < total
    → (pid : ℕ) × (pid < threads)
      × (first_row total threads pid ≤ a)
      × (a < past_row total threads pid)
      × ((q : ℕ) → first_row total threads q ≤ a → a < past_row total threads q → pid ≡ q)
rows_partitioned total threads a h lt =
    let (pid, below, lo, hi) =
      owner_below total threads threads a (omega (arith, first_row-threads total threads h)) in
    (pid, below, lo, hi, λ q. owner_unique total threads pid q a lo hi)
