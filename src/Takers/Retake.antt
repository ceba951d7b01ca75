-- ===== src/Takers/Retake.antt =====
-- The second loop of `selectTxn` with a `var_zero` that is not 0.
use icsa_artifact.Base.{ℕ, ◌<◌, ◌≡◌, ◌≢◌, arith}
use icsa_artifact.Base.Int.{pos, negsuc}
use icsa_artifact.Takers.{second, processing, Threads, Step, second_load, second_take, store}

module _ (n : ℕ) (adj : ℕ → ℕ → ℕ) where
  pub data Steps (s : Threads) : Threads → Type 0 where
    none_more : Steps s s
    more : {u w : Threads} → Steps s u → Step n adj u w → Steps s w

-- In a state where two threads are in the second loop of the distributed node's `selectTxn` at a
-- transaction of in-degree 0, one with 0 in `var_zero` and the other with the -1 that an exchange
-- of its first loop left there when it failed: both can take the transaction, and then both process
-- it.
pub retakes :
    (n : ℕ) (adj : ℕ → ℕ → ℕ) (s : Threads) (t u i : ℕ)
    → t ≢ u
    → i < n
    → s.in_degree i ≡ pos 0
    → s.place t ≡ second i (negsuc 0)
    → s.place u ≡ second i (pos 0)
    → (s' : Threads) × Steps n adj s s' × (s'.place t ≡ processing i) × (s'.place u ≡ processing i)
retakes n adj s t u i apart lt free at_t at_u = (
  _,
  more
      (more
        (more
          (more
            (more (more none_more (second_load t i (negsuc 0) at_t lt free))
              (second_load u i (pos 0) (ground arith) lt free))
            (second_take u i (pos 0) (ground arith) free))
          (second_take t i (negsuc 0) (ground arith) (ground arith)))
        (store t i (ground arith)))
      (store u i (ground arith)),
  ground arith,
  ground arith,
)
