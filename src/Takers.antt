-- ===== src/Takers.antt =====
-- BlockRAFT-distributed_node/dagModule/DAGmodule.h, `selectTxn` and `complete`, as the threads of
-- `executeTxns` (scheduler/scheduler.h) call them: any number of threads, a step for each access to
-- an atomic variable, and the local variables of each thread.
pub mod Fresh
pub mod Safe
pub mod Single
pub mod Retake
use icsa_artifact.Base.{ℕ, ◌+◌, ◌≤◌, ◌<◌, ◌≡◌, ◌≢◌, Bool}
use icsa_artifact.Base.Int.{ℤ, pos, negsuc, ◌-ℤ◌}
use icsa_artifact.Workers.{update}
use icsa_artifact.Workers

-- Where a thread is, with the transaction or index that it is at.
pub data Place : Type 0 where
  outside : Place  -- in `executeTxns`, with no transaction
  first : (i : ℕ) (var_zero : ℤ) → Place  -- the first loop of `selectTxn`, before the load
  first_free : (i : ℕ) → Place  -- it loaded 0, and `var_zero` is 0
  second : (i : ℕ) (var_zero : ℤ) → Place  -- the second loop, before the load
  second_free : (i : ℕ) (var_zero : ℤ) → Place  -- it loaded 0
  storing : (i : ℕ) → Place  -- before `lastTxn.store(i)`
  processing : (i : ℕ) → Place  -- `selectTxn` returned `i`
  counting : (i : ℕ) → Place  -- in `complete`, after the first `fetch_sub`
  lowering : (i next : ℕ) → Place  -- in the loop of `complete`, before index `next`

pub record Threads : Type 0 where
  pub in_degree : ℕ → ℤ
  pub completed : ℕ
  pub last_txn : ℕ
  pub place : ℕ → Place

abbrev pub go : ℕ → Place → Threads → Threads
go t p s = record s { place = update s.place t p }

-- A successful exchange of thread `t` at index `i`.
abbrev pub take : ℕ → ℕ → Threads → Threads
take t i s = record s {
  in_degree = update s.in_degree i (negsuc 0);
  place = update s.place t (storing i);
}

-- `n` transactions with the matrix `adj`; a step of thread `t`.
module _ (n : ℕ) (adj : ℕ → ℕ → ℕ) where
  pub data Step (s : Threads) : Threads → Type 0 where
    enter : (t : ℕ) → s.place t ≡ outside → Step s (go t (first (s.last_txn + 1) (pos 0)) s)
    first_busy :
        (t i : ℕ) (v : ℤ)
        → s.place t ≡ first i v
        → i < n
        → s.in_degree i ≢ pos 0
        → Step s (go t (first (i + 1) v) s)
    first_load :
        (t i : ℕ) (v : ℤ)
        → s.place t ≡ first i v
        → i < n
        → s.in_degree i ≡ pos 0
        → Step s (go t (first_free i) s)
    first_take : (t i : ℕ) → s.place t ≡ first_free i → s.in_degree i ≡ pos 0 → Step s (take t i s)
    -- a failed exchange writes what it found into `var_zero`
    first_fail :
        (t i : ℕ)
        → s.place t ≡ first_free i
        → s.in_degree i ≢ pos 0
        → Step s (go t (first (i + 1) (s.in_degree i)) s)
    turn_round : (t i : ℕ) (v : ℤ) → s.place t ≡ first i v → n ≤ i → Step s (go t (second 0 v) s)
    second_busy :
        (t i : ℕ) (v : ℤ)
        → s.place t ≡ second i v
        → i < n
        → s.in_degree i ≢ pos 0
        → Step s (go t (second (i + 1) v) s)
    second_load :
        (t i : ℕ) (v : ℤ)
        → s.place t ≡ second i v
        → i < n
        → s.in_degree i ≡ pos 0
        → Step s (go t (second_free i v) s)
    -- the exchange compares with `var_zero` as the first loop, or an exchange before, left it
    second_take :
        (t i : ℕ) (v : ℤ) → s.place t ≡ second_free i v → s.in_degree i ≡ v → Step s (take t i s)
    second_fail :
        (t i : ℕ) (v : ℤ)
        → s.place t ≡ second_free i v
        → s.in_degree i ≢ v
        → Step s (go t (second (i + 1) (s.in_degree i)) s)
    give_up : (t i : ℕ) (v : ℤ) → s.place t ≡ second i v → n ≤ i → Step s (go t outside s)
    store :
        (t i : ℕ)
        → s.place t ≡ storing i
        → Step s (record s { last_txn = i; place = update s.place t (processing i) })
    -- the `continue` after a header that does not parse
    lose : (t i : ℕ) → s.place t ≡ processing i → Step s (go t outside s)
    execute :
        (t i : ℕ)
        → s.place t ≡ processing i
        → Step s (record s {
          in_degree = update s.in_degree i (s.in_degree i -ℤ pos 1);
          place = update s.place t (counting i);
        })
    count :
        (t i : ℕ)
        → s.place t ≡ counting i
        → Step s (record s {
          completed = s.completed + 1;
          place = update s.place t (lowering i (i + 1));
        })
    lower :
        (t i k : ℕ)
        → s.place t ≡ lowering i k
        → k < n
        → adj i k ≡ 1
        → Step s (record s {
          in_degree = update s.in_degree k (s.in_degree k -ℤ pos 1);
          place = update s.place t (lowering i (k + 1));
        })
    pass :
        (t i k : ℕ)
        → s.place t ≡ lowering i k
        → k < n
        → adj i k ≢ 1
        → Step s (go t (lowering i (k + 1)) s)
    leave : (t i k : ℕ) → s.place t ≡ lowering i k → n ≤ k → Step s (go t outside s)

  -- From the in-degrees of the node's share of the block.
  pub data Reach (assigned : ℕ → Bool) (last_txn : ℕ) : Threads → Type 0 where
    begin : Reach assigned last_txn (record {
      in_degree = (Workers.start n adj assigned).in_degree;
      completed = (Workers.start n adj assigned).completed;
      last_txn = last_txn;
      place = λ t. outside;
    })
    next : {s u : Threads} → Reach assigned last_txn s → Step s u → Reach assigned last_txn u

  -- An exchange of the second loop that succeeds does so with 0 in `var_zero`.
  abbrev pub FreshStep : {s u : Threads} → Step s u → Type 0
  FreshStep (second_take t i v p e) = v ≡ pos 0
  FreshStep _ = Unit

  abbrev pub IsFresh :
      {assigned : ℕ → Bool} {last_txn : ℕ} {s : Threads} → Reach assigned last_txn s → Type 0
  IsFresh begin = Unit
  IsFresh (next r step) = IsFresh r × FreshStep step
