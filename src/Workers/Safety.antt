-- ===== src/Workers/Safety.antt =====
-- What every reachable state says of the transactions that threads have taken.
use icsa_artifact.Base.{ℕ, ◌<◌, ◌≡◌, ◌≢◌, refl, ◌∙◌, ◌↔◌, subst, Bool, true, arith}
use icsa_artifact.Base.Int.{pos}
use icsa_artifact.Workers.Sum.{le-sum, sum-eq-zero}
use icsa_artifact.Workers.Inv.{pending, outstanding, IsDag, Inv}
use icsa_artifact.Workers.Keep.{Reach-Inv, claimed}
use icsa_artifact.Workers.{
  Phase, foreign, waiting, running, executed, releasing, done, System, Reach,
}

-- A transaction whose effects are complete: the thread that took it is past `ProcessTxn`, and has
-- let `i` go.
abbrev pub HasReleased : Phase → ℕ → Type 0
HasReleased (releasing next) i = i < next
HasReleased done i = Unit
HasReleased _ i = ⊥

released :
    (phase : Phase) (a i : ℕ)
    → a ≡ 1
    → phase ≢ foreign
    → pending phase a i ≡ 0
    → HasReleased phase i
released foreign a i edge f z = absurd (f refl)
released waiting a i edge f z = omega arith
released running a i edge f z = omega arith
released executed a i edge f z = omega arith
released (releasing next) a i edge f z = ground arith
released done a i edge f z = tt

-- Over a matrix of zeros and ones with edges from lower to higher positions only, none of which
-- leaves the node's share (`IsDag`): in every reachable state, a transaction of the node that has
-- been taken by a thread has all its predecessors in the matrix behind it. Each has been processed,
-- and its thread has decremented this transaction's in-degree.
pub predecessors_first :
    (n : ℕ) (adj : ℕ → ℕ → ℕ) (assigned : ℕ → Bool)
    → IsDag adj assigned
    → {s : System} → Reach n adj assigned s
    → (p i : ℕ) → i < n
    → assigned i ≡ true
    → s.phase i ≢ waiting
    → adj p i ≡ 1
    → HasReleased (s.phase p) i
predecessors_first n adj assigned dag {s} r p i lt mine taken edge =
    released (s.phase p) (adj p i) i edge (inv.own p (dag.closed p i edge ∙ mine)) (
      omega
        (arith, inv.clear i lt mine taken, le-sum (λ q. pending (s.phase q) (adj q i) i) n p below))
  where
    inv : Inv n adj assigned s
    inv = Reach-Inv n adj assigned dag r

    below : p < n
    below = omega (arith, dag.upper p i edge)

module _ (n : ℕ) (adj : ℕ → ℕ → ℕ) (assigned : ℕ → Bool) (dag : IsDag adj assigned) {s : System}
    (r : Reach n adj assigned s) where
  mine_of_running : (i : ℕ) → s.phase i ≡ running → assigned i ≡ true
  mine_of_running i e = ground (arith, (Reach-Inv n adj assigned dag r).others i)

  apart : (p i : ℕ) → i < n → s.phase p ≡ running → s.phase i ≡ running → adj p i ≢ 1
  apart p i lt run_p run_i edge =
      subst (λ phase. HasReleased phase i) run_p
        (predecessors_first n adj assigned dag r p i lt (mine_of_running i run_i)
          (rw run_i (ground arith)) edge)

-- Over a matrix and a share of the node as `IsDag` describes, in every reachable state, two transactions that are both being processed have no edge between
-- them.
pub no_conflict_runs :
    (n : ℕ) (adj : ℕ → ℕ → ℕ) (assigned : ℕ → Bool)
    → IsDag adj assigned
    → {s : System} → Reach n adj assigned s
    → (p i : ℕ) → p < n
    → i < n
    → s.phase p ≡ running
    → s.phase i ≡ running
    → (adj p i ≢ 1) × (adj i p ≢ 1)
no_conflict_runs n adj assigned dag r p i lt_p lt_i run_p run_i = (
  apart n adj assigned dag r p i lt_i run_p run_i,
  apart n adj assigned dag r i p lt_p run_i run_p,
)

-- Over a matrix and a share of the node as `IsDag` describes, in every reachable state, an in-degree of 0, which the compare-exchange of `selectTxn` looks for,
-- belongs to a transaction of this node that no thread has taken before.
pub taken_once :
    (n : ℕ) (adj : ℕ → ℕ → ℕ) (assigned : ℕ → Bool)
    → IsDag adj assigned
    → {s : System} → Reach n adj assigned s
    → (i : ℕ) → i < n
    → s.in_degree i ≡ pos 0
    → (assigned i ≡ true) × (s.phase i ≡ waiting)
taken_once n adj assigned dag r i lt z =
    let (mine, fresh, _) = claimed n adj assigned dag (Reach-Inv n adj assigned dag r) i lt z in
    (mine, fresh)

-- Over a matrix and a share of the node as `IsDag` describes, in every reachable state, the test `completedTxns == totalTxns` holds exactly if every
-- transaction of this node has been processed and counted.
pub completed_iff :
    (n : ℕ) (adj : ℕ → ℕ → ℕ) (assigned : ℕ → Bool)
    → IsDag adj assigned
    → {s : System} → Reach n adj assigned s
    → (s.completed ≡ n) ↔ ((i : ℕ) → i < n → outstanding (s.phase i) ≡ 0)
completed_iff n adj assigned dag {s} r = (
  λ all i lt. omega (arith, counted, le-sum (λ k. outstanding (s.phase k)) n i lt),
  λ none_left. omega (arith, counted, sum-eq-zero (λ k. outstanding (s.phase k)) n none_left),
)
  where
    open (Reach-Inv n adj assigned dag r) use {counted}
