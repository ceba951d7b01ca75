-- ===== src/Parallel/Settled.antt =====
-- Where the threads of a block stop.
use icsa_artifact.Base.{
  ℕ, ◌<◌, ◌≡◌, ◌≢◌, refl, sym, ◌∙◌, ap, Bool, true, Option, List, arith, length, Perm, ◌⊎◌, inl,
  inr, Bool-cases,
}
use icsa_artifact.Text.{Text}
use icsa_artifact.Contract.{Map, Outcome, ok, threw, undefined}
use icsa_artifact.Contract.Atomic.{Same}
use icsa_artifact.Dag.{DagModule}
use icsa_artifact.Dag.Create.{txn_at}
use icsa_artifact.Serial.Run.{Transaction}
use icsa_artifact.Serial.Order.{in_order, Families}
use icsa_artifact.Workers.{running, done, Reach}
use icsa_artifact.Workers
use icsa_artifact.Workers.Keep.{Reach-Inv}
use icsa_artifact.Workers.Progress.{no_deadlock}
use icsa_artifact.Workers.Inv.{IsDag}
use icsa_artifact.Workers.Safety.{completed_iff}
use icsa_artifact.Parallel.{
  Call, ended, access, run, Processors, call_at, State, Step, process, answer, other, Runs,
  Reach-of_Runs,
}
use icsa_artifact.Parallel.Equal.{alone, all_of}
use icsa_artifact.Parallel.Threads.{countdown}
use icsa_artifact.Parallel.Footprint.{Within}
use icsa_artifact.Parallel.Block.{
  edges, headers_of, unnamed, edges-IsDag, parallel_is_serial, running_answer,
}

module _ (n : ℕ) (adj : ℕ → ℕ → ℕ) where
  -- A call was ended by an exception or by undefined behaviour.
  pub record Broken (s : State) : Type 0 where
    pub at : ℕ
    pub below : at < n
    pub runs : s.system.phase at ≡ running
    pub outcome : Outcome Bool
    pub bad : (b : Bool) → outcome ≢ ok b
    pub left : s.left at ≡ ended outcome

  pub record CanGo (s : State) : Type 0 where
    pub after : State
    pub step : Step n adj s after

  call_goes :
      {s : State} (i : ℕ)
      → i < n
      → s.system.phase i ≡ running
      → (c : Call) → s.left i ≡ c
      → CanGo s ⊎ Broken s
  call_goes i h p (access next change) e =
      inl (record { after = _; step = process i next change h p e })
  call_goes i h p (ended (ok b)) e = inl (record { after = _; step = answer i b h p e })
  call_goes i h p (ended threw) e =
      inr
        (record { at = i; below = h; runs = p; outcome = threw; bad = λ b. ground arith; left = e })
  call_goes i h p (ended undefined) e = inr (record {
    at = i;
    below = h;
    runs = p;
    outcome = undefined;
    bad = λ b. ground arith;
    left = e;
  })

  step_goes :
      {s : State} {system : Workers.System}
      → Workers.Step n adj s.system system
      → CanGo s ⊎ Broken s
  step_goes {s} (Workers.execute i h p) = call_goes i h p (s.left i) refl
  step_goes (Workers.claim i h z) =
      inl (record { after = _; step = other (Workers.claim i h z) tt })
  step_goes (Workers.count i h p) =
      inl (record { after = _; step = other (Workers.count i h p) tt })
  step_goes (Workers.release i k h p lt a) =
      inl (record { after = _; step = other (Workers.release i k h p lt a) tt })
  step_goes (Workers.skip i k h p lt a) =
      inl (record { after = _; step = other (Workers.skip i k h p lt a) tt })
  step_goes (Workers.stop i k h p le) =
      inl (record { after = _; step = other (Workers.stop i k h p le) tt })

  -- The threads stop where all is completed, or where a call was ended otherwise than by an answer.
  goes_on :
      (assigned : ℕ → Bool)
      → IsDag adj assigned
      → (s : State) → Reach n adj assigned s.system
      → (s.system.completed ≡ n) ⊎ (CanGo s ⊎ Broken s)
  goes_on assigned dag s r = elim (no_deadlock n adj assigned dag r) [
    | inr can ↦ inr (step_goes can.step)
    | inl finished ↦ inl (
        (completed_iff n adj assigned dag r).1 (λ i lt. elim (Bool-cases (assigned i)) [
          | inl mine ↦ rw (finished i lt mine)
          | inr other_node ↦ rw (((Reach-Inv n adj assigned dag r).others i other_node).1)
        ]))
  ]

-- A block whose headers parse, to the families given, on the graph that `create` leaves with every
-- one of its threads, of which there is one at least, run once in any order; each call reads and
-- writes only what the header of its transaction lists; and the transactions one after the other all
-- answer `true`. Then a state that the threads of `executeTxns` can reach, and from which there is no
-- step, has every transaction completed, the flag up, and a map of the same view as theirs.
pub parallel_settles :
    (pro : Processors) (parse : Text → Option (List Text × List Text)) (family : Text → Option Text)
    (named : List (Text × Transaction)) (order : List ℕ) (threads : ℕ) (dag : DagModule)
    {V : Type 0} (view : Text → Map → V) (m m' : Map)
    → 0 < threads
    → Perm order (countdown threads)
    → Families (alone pro) family named
    → let txns = unnamed named in
      let headers = headers_of txns in
      let adj = edges parse order headers threads dag in
      ((i : ℕ) → Within view (txn_at parse headers i) (call_at pro family txns i))
      → (s : State) → Runs (length headers) adj all_of (call_at pro family txns) m s
      → in_order (alone pro) named m ≡ (ok true, m')
      → ¬ CanGo (length headers) adj s
      → (s.system.completed ≡ length headers) × (s.flag ≡ true) × Same view m' s.my_map
parallel_settles pro parse family named order threads dag view m m' some_thread each_once parsed w s
      r good stuck =
    let headers = headers_of (unnamed named) in
    let adj = edges parse order headers threads dag in
    let (refused, agrees) =
      parallel_is_serial pro parse family named order threads dag view m some_thread each_once
        parsed w s r in
    let answer : (in_order (alone pro) named m).0 ≡ ok true = ap (λ q. q.0) good in
    let up : s.flag ≡ true = elim (Bool-cases s.flag) [
      | inl on ↦ on
      | inr off ↦ absurd (refused off answer)
    ] in
    let all_done : s.system.completed ≡ length headers =
      elim (goes_on (length headers) adj all_of
        (edges-IsDag parse order headers threads dag some_thread each_once) s
        (Reach-of_Runs _ _ r)) [
          | inl finished ↦ finished
          | inr (inl can) ↦ absurd (stuck can)
          | inr (inr broken) ↦ absurd (
              broken.bad true (
                ap (λ c. (run c s.my_map).0) (sym broken.left)
                ∙ running_answer pro parse family named order threads dag view m some_thread
                    each_once parsed w r answer broken.at broken.below broken.runs))
        ] in
    let (last, same, seen) = agrees all_done up in
    (all_done, up, λ x. seen x ∙ ap (λ q. view x q.1) (sym same ∙ good))
