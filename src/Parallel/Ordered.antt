-- ===== src/Parallel/Ordered.antt =====
-- What the map and the flag have to do with the transactions taken one after the other, in the order
-- of the block, while calls of several transactions are under way.
use icsa_artifact.Base.{ℕ, ◌<◌, ◌≡◌, refl, Bool, true, false, arith}
use icsa_artifact.Text.{Text}
use icsa_artifact.Contract.{Map, Outcome, ok}
use icsa_artifact.Contract.Atomic.{Same}
use icsa_artifact.Dag.{TransactionStruct}
use icsa_artifact.Dag.Conflict.{Conflict}
use icsa_artifact.Parallel.{Call, run}
use icsa_artifact.Parallel.Footprint.{Within, run-Same, run_comm}
use icsa_artifact.Parallel.Turns.{in_turn}

abbrev pub effects : (ℕ → Call) → ℕ → Map → Map
effects left i m = (run (left i) m).1

module _ {V : Type 0} (view : Text → Map → V) (n : ℕ) (txn : ℕ → TransactionStruct)
    (call : ℕ → Call) (start : Map) where
  -- The answer of a transaction after those of `taken` that are before it in the block.
  abbrev pub answer_of : (ℕ → Bool) → ℕ → Outcome Bool
  answer_of taken i = (run (call i) (in_turn taken (effects call) i start)).0

  -- `taken`: claimed by some thread; `runs`: its call is under way.
  pub record Ordered (taken runs : ℕ → Bool) (left : ℕ → Call) (m : Map) (flag : Bool)
      : Type 0 where
    pub within : (i : ℕ) → Within view (txn i) (left i)
    pub fresh : (i : ℕ) → taken i ≡ false → left i ≡ call i
    -- With the calls under way completed, the map is that of the transactions in their order.
    pub maps : Same view (in_turn taken (effects call) n start) (in_turn runs (effects left) n m)
    pub answers : (i : ℕ) → i < n → runs i ≡ true → (run (left i) m).0 ≡ answer_of taken i
    pub raised :
        flag ≡ true
        → (i : ℕ) → i < n
        → taken i ≡ true
        → runs i ≡ false
        → answer_of taken i ≡ ok true
    pub lowered :
        flag ≡ false
        → (i : ℕ) × (i < n) × (taken i ≡ true) × (runs i ≡ false) × (answer_of taken i ≡ ok false)

  pub respects :
      (left : ℕ → Call)
      → ((i : ℕ) → Within view (txn i) (left i))
      → (k : ℕ) (m m' : Map) → Same view m m'
      → Same view (effects left k m) (effects left k m')
  respects left w k m m' s = (run-Same view (txn k) (left k) (w k) m m' s).1

  pub commute :
      (left : ℕ → Call)
      → ((i : ℕ) → Within view (txn i) (left i))
      → (i j : ℕ) → ¬ Conflict (txn i) (txn j)
      → (m : Map)
      → Same view (effects left j (effects left i m)) (effects left i (effects left j m))
  commute left w i j free m = run_comm view (txn i) (txn j) free (left i) (left j) (w i) (w j) m

  -- The transactions in turn from the start, where nobody has been taken.
  pub start-Ordered :
      (taken : ℕ → Bool)
      → ((i : ℕ) → taken i ≡ false)
      → ((i : ℕ) → Within view (txn i) (call i))
      → Ordered taken taken call start true
  start-Ordered taken none_yet w = record {
    within = w;
    fresh = λ i e. refl;
    maps = λ x. refl;
    answers = λ i lt e. ground (arith, none_yet i);
    raised = λ e i lt t r. ground (arith, none_yet i);
    lowered = λ e. absurd (ground arith);
  }
