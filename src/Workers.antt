-- ===== src/Workers.antt =====
-- singleNode-parallel/dagModule/DAGmodule.h, `selectTxn` and `complete`, as the threads of
-- `executeTxns` (scheduler/scheduler.h) call them: any number of threads that share the in-degree
-- array, a step for each access to it. Takers compares the threads of the distributed node with it.
pub mod Sum
pub mod Inv
pub mod Keep
pub mod Safety
pub mod Progress
pub mod Block
use icsa_artifact.Base.{
  ℕ, zero, suc, ◌+◌, ◌-◌, ◌≤◌, ◌<◌, ◌≡◌, ◌≢◌, Bool, true, false, ◌==◌, leb, if◌then◌else◌,
}
use icsa_artifact.Base.Int.{ℤ, pos, negsuc, ◌-ℤ◌}
use icsa_artifact.Workers.Sum.{sum}

-- How far the thread that took a transaction is; one whose header does not parse stays `running`.
-- `foreign` is a transaction of a component that is
-- assigned to another node.
pub data Phase : Type 0 where
  foreign : Phase
  waiting : Phase  -- not taken
  running : Phase  -- taken by `selectTxn`, and being processed
  executed : Phase  -- in `complete`, after the first `fetch_sub`
  releasing : (next : ℕ) → Phase  -- in the loop of `complete`, before index `next`
  done : Phase

abbrev pub update {ℓ} : {A : Type ℓ} → (ℕ → A) → ℕ → A → ℕ → A
update f i a j = if i == j then a else f j

pub record System : Type 0 where
  pub in_degree : ℕ → ℤ
  pub completed : ℕ
  pub phase : ℕ → Phase

-- `n` transactions with the matrix `adj`.
module _ (n : ℕ) (adj : ℕ → ℕ → ℕ) where
  pub data Step (s : System) : System → Type 0 where
    -- the compare-exchange of `selectTxn`, from 0 to -1
    claim :
        (i : ℕ)
        → i < n
        → s.in_degree i ≡ pos 0
        → Step s (record s {
          in_degree = update s.in_degree i (negsuc 0);
          phase = update s.phase i running;
        })
    -- `inDegree[txnID].fetch_sub(1)`, after the transaction is processed
    execute :
        (i : ℕ)
        → i < n
        → s.phase i ≡ running
        → Step s (record s {
          in_degree = update s.in_degree i (s.in_degree i -ℤ pos 1);
          phase = update s.phase i executed;
        })
    -- `completedTxns++`
    count :
        (i : ℕ)
        → i < n
        → s.phase i ≡ executed
        → Step s
            (record s { completed = s.completed + 1; phase = update s.phase i (releasing (i + 1)) })
    -- `inDegree[k].fetch_sub(1)` for a successor `k`
    release :
        (i k : ℕ)
        → i < n
        → s.phase i ≡ releasing k
        → k < n
        → adj i k ≡ 1
        → Step s (record s {
          in_degree = update s.in_degree k (s.in_degree k -ℤ pos 1);
          phase = update s.phase i (releasing (k + 1));
        })
    -- an index that is no successor
    skip :
        (i k : ℕ)
        → i < n
        → s.phase i ≡ releasing k
        → k < n
        → adj i k ≢ 1
        → Step s (record s { phase = update s.phase i (releasing (k + 1)) })
    -- the end of the loop
    stop :
        (i k : ℕ)
        → i < n
        → s.phase i ≡ releasing k
        → n ≤ k
        → Step s (record s { phase = update s.phase i done })

  -- `ProcessIndegree` over the components of this node: the column sums of its transactions
  -- (`columnSum`), -1 for the others, and all but its own transactions counted as completed.
  unfoldable pub start : (ℕ → Bool) → System
  start assigned = record {
    in_degree = λ i. if assigned i then pos (sum (λ p. adj p i) n) else negsuc 0;
    completed = n - sum (λ i. if assigned i then 1 else 0) n;
    phase = λ i. if assigned i then waiting else foreign;
  }

  pub data Reach (assigned : ℕ → Bool) : System → Type 0 where
    begin : Reach assigned (start assigned)
    next : {s t : System} → Reach assigned s → Step s t → Reach assigned t
