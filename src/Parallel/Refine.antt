-- ===== src/Parallel/Refine.antt =====
-- `selectTxn` and `complete` of singleNode-parallel/dagModule/DAGmodule.h as sequences of the steps
-- that the threads take.
use icsa_artifact.Base.{
  ℕ, dec_lt, zero, suc, ◌+◌, ◌-◌, ◌<◌, ◌≡◌, ◌≢◌, refl, sym, ◌∙◌, ap, true, false, Option, none,
  some, List, arith, ltb, ◌==◌, length, get_or, set, length-set, Bool-cases, inl, inr,
}
use icsa_artifact.Base.Int.{ℤ, pos, negsuc, ◌+ℤ◌, ◌-ℤ◌}
use icsa_artifact.Dag.{Matrix, DagModule, entry}
use icsa_artifact.Dag.Grid.{get_or-set}
use icsa_artifact.Serial.{is_free, scan, release}
use icsa_artifact.Serial.Step.{get_or-default}
use icsa_artifact.Workers.{
  System, Step, claim, execute, count, stop, update, running, executed, releasing, done,
}
use icsa_artifact.Workers
use icsa_artifact.Parallel.Graph.{select_txn, complete}

zero_of_free : (z : ℤ) → elim z [ pos d ↦ d == 0 | negsuc d ↦ false ] ≡ true → z ≡ pos 0
zero_of_free (pos d) e = ground (arith, e)
zero_of_free (negsuc d) e = cc

busy_of_zero : (z : ℤ) → elim z [ pos d ↦ d == 0 | negsuc d ↦ false ] ≡ false → z ≢ pos 0
busy_of_zero (pos d) e z = ground (arith, e)
busy_of_zero (negsuc d) e z = ground arith

module _ (n : ℕ) (adj : ℕ → ℕ → ℕ) where
  -- Steps of the threads, one after the other.
  pub data Steps : System → System → Type 0 where
    stay : {s : System} → Steps s s
    first : {s t u : System} → Step n adj s t → Steps t u → Steps s u

  -- The array of the in-degrees is that of the state.
  pub record ShowsDegrees (degrees : List ℤ) (s : System) : Type 0 where
    pub size : length degrees ≡ n
    pub at : (i : ℕ) → i < n → get_or degrees i (pos 0) ≡ s.in_degree i

  -- The module has the matrix, and what the state has.
  pub record Shows (dag : DagModule) (s : System) : Type 0 where
    pub total : dag.total_txns ≡ n
    pub edges : (a b : ℕ) → entry dag.adjacency_matrix a b ≡ adj a b
    pub degrees : ShowsDegrees dag.in_degree s
    pub completed : dag.completed_txns ≡ pos s.completed

  Shows-set :
      (degrees : List ℤ) (s t : System) (i : ℕ) (d : ℤ)
      → ShowsDegrees degrees s
      → ((j : ℕ) → t.in_degree j ≡ update s.in_degree i d j)
      → ShowsDegrees (set degrees i d) t
  Shows-set degrees s t i d sh e = record {
    size = length-set degrees i d ∙ sh.size;
    at = λ j h. get_or-set degrees i j d (pos 0) ∙ ground (arith, sh.at j h, sh.size, e j);
  }

  -- What an answer of `selectTxn` means for the threads.
  abbrev pub Selects : System → Option ℕ × DagModule → Type 0
  Selects s (none, dag) = ((i : ℕ) → i < n → s.in_degree i ≢ pos 0) × Shows dag s
  Selects s (some i, dag) = (t : System) × Step n adj s t × (t.phase i ≡ running) × Shows dag t

  scan-Selects :
      (i left : ℕ) (dag : DagModule) (s : System)
      → i + left ≡ n
      → Shows dag s
      → ((j : ℕ) → j < i → s.in_degree j ≢ pos 0)
      → Selects s (scan i left dag)
  unfolding scan
  scan-Selects i zero dag s e sh before = (λ j h. before j (omega arith), sh)
  scan-Selects i (suc left) dag s e sh before =
      let here : get_or dag.in_degree i (negsuc 0) ≡ s.in_degree i =
        get_or-default dag.in_degree i (negsuc 0) (pos 0) (omega (arith, sh.degrees.size))
        ∙ sh.degrees.at i (omega arith) in
      elim (Bool-cases (is_free dag.in_degree i)) [
        | inl free ↦
            rw (scan, free)
              (
                _,
                claim i (omega arith) (sym here ∙ zero_of_free _ free),
                ground arith,
                record {
                  total = sh.total;
                  edges = sh.edges;
                  degrees = Shows-set dag.in_degree s _ i (negsuc 0) sh.degrees (λ j. refl);
                  completed = sh.completed;
                },
              )
        | inr busy ↦
            rw (scan, busy)
              (scan-Selects (suc i) left dag s (omega arith) sh (λ j h. elim (dec_lt j i) [
                | yes lt ↦ before j lt
                | no at ↦
                    let e' : i ≡ j = omega arith in
                    λ z. busy_of_zero _ busy (here ∙ ap s.in_degree e' ∙ z)
              ]))
      ]

  -- The loop of `complete`.
  record Released (i : ℕ) (degrees : List ℤ) (s : System) : Type 0 where
    after : System
    steps : Steps s after
    shows : ShowsDegrees degrees after
    completed : after.completed ≡ s.completed
    done_now : after.phase i ≡ done

  release_steps :
      (m : Matrix)
      → ((a b : ℕ) → entry m a b ≡ adj a b)
      → (i j left : ℕ) (degrees : List ℤ) (s : System) → i < n
      → i < j
      → j + left ≡ n
      → ShowsDegrees degrees s
      → s.phase i ≡ releasing j
      → Released i (release m i j left degrees) s
  unfolding release
  release_steps m edges i j zero degrees s hi lt e sh p = record {
    after = record s { phase = update s.phase i done };
    steps = first (stop i j hi p (omega arith)) stay;
    shows = record { size = sh.size; at = sh.at };
    completed = refl;
    done_now = ground arith;
  }
  release_steps m edges i j (suc left) degrees s hi lt e sh p =
      let next : j + 1 ≡ suc j = omega arith in
      elim (Bool-cases (entry m i j == 1)) [
        | inl edge ↦
            let s' : System = record s {
              in_degree = update s.in_degree j (s.in_degree j -ℤ pos 1);
              phase = update s.phase i (releasing (j + 1));
            } in
            let sh' : ShowsDegrees (set degrees j (get_or degrees j (pos 0) -ℤ pos 1)) s' =
              Shows-set degrees s s' j (get_or degrees j (pos 0) -ℤ pos 1) sh (λ k.
                ap (λ z. update s.in_degree j (z -ℤ pos 1) k) (sym (sh.at j (omega arith)))) in
            let r =
              release_steps m edges i (suc j) left _ s' hi (omega arith) (omega arith) sh'
                (ground (arith, next)) in
            rw (release, edge)
              (record {
                after = r.after;
                steps =
                    first
                      (Workers.release i j hi p (omega arith)
                        (sym (edges i j) ∙ ground (arith, edge)))
                      r.steps;
                shows = r.shows;
                completed = r.completed;
                done_now = r.done_now;
              })
        | inr none_here ↦
            let s' : System = record s { phase = update s.phase i (releasing (j + 1)) } in
            let r =
              release_steps m edges i (suc j) left degrees s' hi (omega arith) (omega arith)
                (record { size = sh.size; at = sh.at }) (ground (arith, next)) in
            rw (release, none_here)
              (record {
                after = r.after;
                steps =
                    first
                      (Workers.skip i j hi p (omega arith)
                        (λ one. ground (arith, none_here, edges i j)))
                      r.steps;
                shows = r.shows;
                completed = r.completed;
                done_now = r.done_now;
              })
      ]

-- On a module that has the matrix, the in-degrees and the count of a state of the threads,
-- `selectTxn` either takes a transaction, which is a step of the threads after which that transaction
-- is being processed and the module is again that of the state; or it changes nothing, and no
-- in-degree is 0.
pub select_txn-Selects :
    (n : ℕ) (adj : ℕ → ℕ → ℕ) (dag : DagModule) (s : System)
    → Shows n adj dag s
    → Selects n adj s (select_txn dag)
unfolding select_txn
select_txn-Selects n adj dag s sh =
    scan-Selects n adj 0 dag.total_txns dag s (omega (arith, sh.total)) sh
      (λ j h. absurd (omega arith))

-- On a module that has the matrix, the in-degrees and the count of a state of the threads in which
-- transaction `i` is being processed, `complete` of `i` is a sequence of steps of the threads after
-- which that transaction is done and the module is again that of the state.
pub complete-Steps :
    (n : ℕ) (adj : ℕ → ℕ → ℕ) (dag : DagModule) (s : System) (i : ℕ)
    → Shows n adj dag s
    → i < n
    → s.phase i ≡ running
    → (t : System) × Steps n adj s t × (t.phase i ≡ done) × Shows n adj (complete (pos i) dag) t
unfolding complete ◌+ℤ◌
complete-Steps n adj dag s i sh lt p =
    let s₁ : System = record s {
      in_degree = update s.in_degree i (s.in_degree i -ℤ pos 1);
      phase = update s.phase i executed;
    } in
    let s₂ : System = record s₁ {
      completed = s₁.completed + 1;
      phase = update s₁.phase i (releasing (i + 1));
    } in
    let next : i + 1 ≡ suc i = omega arith in
    let degrees = set dag.in_degree i (get_or dag.in_degree i (pos 0) -ℤ pos 1) in
    let shown : ShowsDegrees n adj degrees s₁ =
      Shows-set n adj dag.in_degree s s₁ i (get_or dag.in_degree i (pos 0) -ℤ pos 1) sh.degrees
        (λ k. ap (λ z. update s.in_degree i (z -ℤ pos 1) k) (sym (sh.degrees.at i lt))) in
    let r =
      release_steps n adj dag.adjacency_matrix sh.edges i (suc i) (dag.total_txns - suc i) degrees
        s₂ lt (omega arith) (omega (arith, sh.total)) (record { size = shown.size; at = shown.at })
        (ground (arith, next)) in
    let inside : ltb i dag.total_txns ≡ true = ground (arith, sh.total) in
    (
      r.after,
      first (execute i lt p) (first (count i lt (ground arith)) r.steps),
      r.done_now,
      rw (complete, inside)
          (record {
            total = sh.total;
            edges = sh.edges;
            degrees = r.shows;
            completed = ground (arith, sh.completed, r.completed);
          }),
    )
