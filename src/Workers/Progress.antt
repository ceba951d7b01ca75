-- ===== src/Workers/Progress.antt =====
-- A step for the threads in every state with a transaction left.
use icsa_artifact.Base.{
  ℕ, zero, suc, ◌≤◌, ◌<◌, ◌≡◌, ◌⊎◌, inl, inr, refl, ◌∙◌, Bool, true, arith, dec_lt, ℕ_discrete,
  Bool-cases,
}
use icsa_artifact.Base.Int.{pos}
use icsa_artifact.Workers.Sum.{sum-eq-zero}
use icsa_artifact.Workers.Inv.{pending, IsDag, Inv}
use icsa_artifact.Workers.Keep.{Reach-Inv}
use icsa_artifact.Workers.{
  Phase, foreign, waiting, running, executed, releasing, done, System, Step, claim, execute, count,
  release, skip, stop, Reach,
}

-- A step that some thread can take.
pub record CanStep (n : ℕ) (adj : ℕ → ℕ → ℕ) (s : System) : Type 0 where
  pub after : System
  pub step : Step n adj s after

pending_no_edge : (phase : Phase) (i : ℕ) → pending phase 0 i ≡ 0
pending_no_edge (releasing k) i = ground arith
pending_no_edge foreign i = refl
pending_no_edge _ i = refl

module _ (n : ℕ) (adj : ℕ → ℕ → ℕ) (assigned : ℕ → Bool) (dag : IsDag adj assigned) {s : System}
    (inv : Inv n adj assigned s) where
  -- Every transaction of this node below `k` is done.
  abbrev DoneBelow : ℕ → Type 0
  DoneBelow k = (p : ℕ) → p < k → assigned p ≡ true → s.phase p ≡ done

  ready :
      (k : ℕ)
      → k < n
      → assigned k ≡ true
      → DoneBelow k
      → s.phase k ≡ waiting
      → s.in_degree k ≡ pos 0
  ready k lt mine before w =
      inv.degree k lt mine
      ∙ rw (w, sum-eq-zero (λ p. pending (s.phase p) (adj p k) k) n free) (ground arith)
    where
      free : (p : ℕ) → p < n → pending (s.phase p) (adj p k) k ≡ 0
      free p lt_p = elim (ℕ_discrete (adj p k) 1) [
        | yes edge ↦ rw (before p (dag.upper p k edge) (dag.closed p k edge ∙ mine))
        | no none_here ↦
            let e : adj p k ≡ 0 = omega (arith, dag.binary p k) in
            rw e (pending_no_edge (s.phase p) k)
      ]

  releasing_steps : (k m : ℕ) → k < n → s.phase k ≡ releasing m → CanStep n adj s
  releasing_steps k m lt e = elim (dec_lt m n) [
    | yes inside ↦ elim (ℕ_discrete (adj k m) 1) [
      | yes edge ↦ record { after = _; step = release k m lt e inside edge }
      | no none_here ↦ record { after = _; step = skip k m lt e inside none_here }
    ]
    | no past ↦ record { after = _; step = stop k m lt e (omega arith) }
  ]

  phase_steps :
      (k : ℕ) (phase : Phase)
      → k < n
      → assigned k ≡ true
      → DoneBelow k
      → s.phase k ≡ phase
      → (phase ≡ done) ⊎ CanStep n adj s
  phase_steps k foreign lt mine before e = absurd (inv.own k mine e)
  phase_steps k waiting lt mine before e =
      inr (record { after = _; step = claim k lt (ready k lt mine before e) })
  phase_steps k running lt mine before e = inr (record { after = _; step = execute k lt e })
  phase_steps k executed lt mine before e = inr (record { after = _; step = count k lt e })
  phase_steps k (releasing m) lt mine before e = inr (releasing_steps k m lt e)
  phase_steps k done lt mine before e = inl refl

  done_or_steps : (k : ℕ) → k ≤ n → DoneBelow k ⊎ CanStep n adj s
  done_or_steps zero le = inl (λ p h e. absurd (omega arith))
  done_or_steps (suc k) le = elim (done_or_steps k (omega arith)) [
    | inr can ↦ inr can
    | inl before ↦ elim (Bool-cases (assigned k)) [
      | inr other ↦ inl (λ p h e. ground (arith, before p))
      | inl mine ↦ elim (phase_steps k (s.phase k) (omega arith) mine before refl) [
        | inr can ↦ inr can
        | inl finished ↦ inl (λ p h e. ground (arith, before p))
      ]
    ]
  ]

-- Over a matrix of zeros and ones with edges from lower to higher positions only, none of which
-- leaves the node's share (`IsDag`): in every reachable state, either every transaction of this node
-- is done, or some thread can take a step.
pub no_deadlock :
    (n : ℕ) (adj : ℕ → ℕ → ℕ) (assigned : ℕ → Bool)
    → IsDag adj assigned
    → {s : System} → Reach n adj assigned s
    → ((p : ℕ) → p < n → assigned p ≡ true → s.phase p ≡ done) ⊎ CanStep n adj s
no_deadlock n adj assigned dag r =
    done_or_steps n adj assigned dag (Reach-Inv n adj assigned dag r) n (omega arith)
