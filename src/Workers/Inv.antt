-- ===== src/Workers/Inv.antt =====
-- What the in-degrees and the phases of the transactions have to do with each other.
use icsa_artifact.Base.{
  ℕ, ◌+◌, ◌≤◌, ◌<◌, ◌≡◌, ◌≢◌, refl, ◌∙◌, Bool, true, false, leb, if◌then◌else◌, arith, Bool-cases,
  inl, inr,
}
use icsa_artifact.Base.Int.{negsuc, sub_ℕ}
use icsa_artifact.Workers.Sum.{sum, sum_change, sum_same, sum-le}
use icsa_artifact.Workers.{
  Phase, foreign, waiting, running, executed, releasing, done, update, System, start,
}

-- Whether an edge from a transaction in this phase to `i` still holds `i` back.
abbrev pub pending : Phase → ℕ → ℕ → ℕ
pending foreign a i = 0
pending waiting a i = a
pending running a i = a
pending executed a i = a
pending (releasing next) a i = if leb next i then a else 0
pending done a i = 0

-- What the thread that took a transaction has subtracted from its in-degree.
abbrev pub marks : Phase → ℕ
marks foreign = 0
marks waiting = 0
marks running = 1
marks _ = 2

-- A transaction that is assigned here and not yet counted as completed.
abbrev pub outstanding : Phase → ℕ
outstanding waiting = 1
outstanding running = 1
outstanding executed = 1
outstanding _ = 0

-- The matrix of a block: 0 or 1, above the diagonal, and no edge between two nodes' transactions.
pub record IsDag (adj : ℕ → ℕ → ℕ) (assigned : ℕ → Bool) : Type 0 where
  pub binary : (p i : ℕ) → adj p i ≤ 1
  pub upper : (p i : ℕ) → adj p i ≡ 1 → p < i
  pub closed : (p i : ℕ) → adj p i ≡ 1 → assigned p ≡ assigned i

module _ (n : ℕ) (adj : ℕ → ℕ → ℕ) where
  -- How many edges into `i` still hold it back.
  abbrev pub waits : (ℕ → Phase) → ℕ → ℕ
  waits phase i = sum (λ p. pending (phase p) (adj p i) i) n

  pub record Inv (assigned : ℕ → Bool) (s : System) : Type 0 where
    pub degree :
        (i : ℕ)
        → i < n
        → assigned i ≡ true
        → s.in_degree i ≡ sub_ℕ (waits s.phase i) (marks (s.phase i))
    pub others : (i : ℕ) → assigned i ≡ false → (s.in_degree i ≡ negsuc 0) × (s.phase i ≡ foreign)
    pub own : (i : ℕ) → assigned i ≡ true → s.phase i ≢ foreign
    pub clear : (i : ℕ) → i < n → assigned i ≡ true → s.phase i ≢ waiting → waits s.phase i ≡ 0
    pub ahead : (i k : ℕ) → s.phase i ≡ releasing k → i < k
    pub counted : s.completed + sum (λ i. outstanding (s.phase i)) n ≡ n

  -- One transaction changes its phase.
  pub waits-update :
      (phase : ℕ → Phase) (i : ℕ) (new : Phase) (j : ℕ)
      → i < n
      → waits (update phase i new) j + pending (phase i) (adj i j) j
        ≡ waits phase j + pending new (adj i j) j
  waits-update phase i new j h =
      sum_change (λ p. pending (phase p) (adj p j) j)
        (λ p. pending (update phase i new p) (adj p j) j) n i h (λ p ne. ground arith)
      ∙ ground arith

  pub outstanding-update :
      (phase : ℕ → Phase) (i : ℕ) (new : Phase)
      → i < n
      → sum (λ p. outstanding (update phase i new p)) n + outstanding (phase i)
        ≡ sum (λ p. outstanding (phase p)) n + outstanding new
  outstanding-update phase i new h =
      sum_change (λ p. outstanding (phase p)) (λ p. outstanding (update phase i new p)) n i h
        (λ p ne. ground arith)
      ∙ ground arith

  module _ (assigned : ℕ → Bool) (dag : IsDag adj assigned) where
    start_pending :
        (p i : ℕ)
        → assigned i ≡ true
        → pending (if assigned p then waiting else foreign) (adj p i) i ≡ adj p i
    start_pending p i e = elim (Bool-cases (assigned p)) [
      | inl here ↦ rw here
      | inr there ↦ rw there (ground (arith, dag.binary p i, dag.closed p i))
    ]

    start_degree :
        (i : ℕ)
        → assigned i ≡ true
        → (start n adj assigned).in_degree i
          ≡ sub_ℕ (waits (start n adj assigned).phase i) (marks ((start n adj assigned).phase i))
    unfolding start
    start_degree i e =
        rw
          (
            e,
            sum_same (λ p. adj p i)
                (λ p. pending (if assigned p then waiting else foreign) (adj p i) i) n
                (λ p h. start_pending p i e),
          )
          (ground arith)

    start-outstanding :
        sum (λ i. outstanding ((start n adj assigned).phase i)) n
        ≡ sum (λ i. if assigned i then 1 else 0) n
    unfolding start
    start-outstanding =
        sum_same (λ i. if assigned i then 1 else 0)
          (λ i. outstanding (if assigned i then waiting else foreign)) n (λ i h. ground arith)

    pub start-Inv : Inv assigned (start n adj assigned)
    unfolding start
    start-Inv = record {
      degree = λ i h e. start_degree i e;
      others = λ i e. rw e (refl, refl);
      own = λ i e. rw e (ground arith);
      clear = λ i h e w. absurd (w (rw e));
      ahead = λ i k e. ground arith;
      counted = omega (
        arith,
        start-outstanding,
        sum-le (λ i. if assigned i then 1 else 0) n (λ i. ground arith),
      );
    }
