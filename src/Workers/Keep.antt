-- ===== src/Workers/Keep.antt =====
-- The steps of the threads and the invariant.
use icsa_artifact.Base.{ℕ, ◌+◌, ◌<◌, ◌≡◌, ◌≢◌, Bool, true, false, arith}
use icsa_artifact.Base.Int.{pos, negsuc, sub_ℕ, ◌-ℤ◌}
use icsa_artifact.Workers.Sum.{sum}
use icsa_artifact.Workers.Inv.{
  marks, outstanding, IsDag, waits, Inv, waits-update, outstanding-update, start-Inv,
}
use icsa_artifact.Workers.{
  foreign, waiting, running, executed, releasing, done, System, Step, claim, execute, count,
  release, skip, stop, Reach, begin, next,
}

module _ (n : ℕ) (adj : ℕ → ℕ → ℕ) (assigned : ℕ → Bool) (dag : IsDag adj assigned) {s : System}
    (inv : Inv n adj assigned s) where
  open dag use {binary, upper, closed}
  open inv use {degree, others, own, clear, ahead, counted}

  -- What the compare-exchange takes is assigned here, has not been taken before, and waits for
  -- nothing.
  pub claimed :
      (i : ℕ)
      → i < n
      → s.in_degree i ≡ pos 0
      → (assigned i ≡ true) × (s.phase i ≡ waiting) × (waits n adj s.phase i ≡ 0)
  claimed i h z = ground (arith, others i, own i, degree i, clear i)

  Step-degree :
      {t : System}
      → Step n adj s t
      → (j : ℕ) → j < n
      → assigned j ≡ true
      → t.in_degree j ≡ sub_ℕ (waits n adj t.phase j) (marks (t.phase j))
  unfolding ◌-ℤ◌
  Step-degree (claim i h z) j lt e =
      ground (arith, claimed i h z, degree j, waits-update n adj s.phase i running j h)
  Step-degree (execute i h p) j lt e =
      ground (arith, degree j, waits-update n adj s.phase i executed j h)
  Step-degree (count i h p) j lt e =
      ground (
        arith,
        degree j,
        upper i j,
        binary i j,
        waits-update n adj s.phase i (releasing (i + 1)) j h,
      )
  Step-degree (release i k h p lt' a) j lt e =
      ground
        (arith, degree j, ahead i k, clear k, waits-update n adj s.phase i (releasing (k + 1)) j h)
  Step-degree (skip i k h p lt' a) j lt e =
      ground (arith, degree j, binary i k, waits-update n adj s.phase i (releasing (k + 1)) j h)
  Step-degree (stop i k h p le) j lt e =
      ground (arith, degree j, waits-update n adj s.phase i done j h)

  Step-others :
      {t : System}
      → Step n adj s t
      → (j : ℕ) → assigned j ≡ false
      → (t.in_degree j ≡ negsuc 0) × (t.phase j ≡ foreign)
  Step-others (claim i h z) j e = ground (arith, claimed i h z, others j)
  Step-others (execute i h p) j e = ground (arith, others j)
  Step-others (count i h p) j e = ground (arith, others j)
  Step-others (release i k h p lt a) j e = ground (arith, others j, others i, closed i k)
  Step-others (skip i k h p lt a) j e = ground (arith, others j)
  Step-others (stop i k h p le) j e = ground (arith, others j)

  Step-own : {t : System} → Step n adj s t → (j : ℕ) → assigned j ≡ true → t.phase j ≢ foreign
  Step-own (claim i h z) j e = ground (arith, own j)
  Step-own (execute i h p) j e = ground (arith, own j)
  Step-own (count i h p) j e = ground (arith, own j)
  Step-own (release i k h p lt a) j e = ground (arith, own j)
  Step-own (skip i k h p lt a) j e = ground (arith, own j)
  Step-own (stop i k h p le) j e = ground (arith, own j)

  Step-ahead : {t : System} → Step n adj s t → (j k : ℕ) → t.phase j ≡ releasing k → j < k
  Step-ahead (claim i h z) j k e = ground (arith, ahead j k)
  Step-ahead (execute i h p) j k e = ground (arith, ahead j k)
  Step-ahead (count i h p) j k e = ground (arith, ahead j k)
  Step-ahead (release i m h p lt a) j k e = ground (arith, ahead j k, ahead i m)
  Step-ahead (skip i m h p lt a) j k e = ground (arith, ahead j k, ahead i m)
  Step-ahead (stop i m h p le) j k e = ground (arith, ahead j k)

  Step-counted :
      {t : System} → Step n adj s t → t.completed + sum (λ i. outstanding (t.phase i)) n ≡ n
  Step-counted (claim i h z) =
      ground (arith, claimed i h z, counted, outstanding-update n adj s.phase i running h)
  Step-counted (execute i h p) =
      ground (arith, counted, outstanding-update n adj s.phase i executed h)
  Step-counted (count i h p) =
      ground (arith, counted, outstanding-update n adj s.phase i (releasing (i + 1)) h)
  Step-counted (release i k h p lt a) =
      ground (arith, counted, outstanding-update n adj s.phase i (releasing (k + 1)) h)
  Step-counted (skip i k h p lt a) =
      ground (arith, counted, outstanding-update n adj s.phase i (releasing (k + 1)) h)
  Step-counted (stop i k h p le) =
      ground (arith, counted, outstanding-update n adj s.phase i done h)

  Step-clear :
      {t : System}
      → Step n adj s t
      → (j : ℕ) → j < n
      → assigned j ≡ true
      → t.phase j ≢ waiting
      → waits n adj t.phase j ≡ 0
  Step-clear (claim i h z) j lt e w =
      ground (arith, claimed i h z, clear j, waits-update n adj s.phase i running j h)
  Step-clear (execute i h p) j lt e w =
      ground (arith, clear j, waits-update n adj s.phase i executed j h)
  Step-clear (count i h p) j lt e w =
      ground (
        arith,
        clear j,
        upper i j,
        binary i j,
        waits-update n adj s.phase i (releasing (i + 1)) j h,
      )
  Step-clear (release i k h p lt' a) j lt e w =
      ground (arith, clear j, waits-update n adj s.phase i (releasing (k + 1)) j h)
  Step-clear (skip i k h p lt' a) j lt e w =
      ground (arith, clear j, waits-update n adj s.phase i (releasing (k + 1)) j h)
  Step-clear (stop i k h p le) j lt e w =
      ground (arith, clear j, waits-update n adj s.phase i done j h)

  pub Step-Inv : {t : System} → Step n adj s t → Inv n adj assigned t
  Step-Inv st = record {
    degree = Step-degree st;
    others = Step-others st;
    own = Step-own st;
    clear = Step-clear st;
    ahead = Step-ahead st;
    counted = Step-counted st;
  }

-- The invariant holds in every reachable state.
pub Reach-Inv :
    (n : ℕ) (adj : ℕ → ℕ → ℕ) (assigned : ℕ → Bool)
    → IsDag adj assigned
    → {s : System} → Reach n adj assigned s
    → Inv n adj assigned s
Reach-Inv n adj assigned dag begin = start-Inv n adj assigned dag
Reach-Inv n adj assigned dag (next r st) =
    Step-Inv n adj assigned dag (Reach-Inv n adj assigned dag r) st
