-- ===== src/Parallel/Filled.antt =====
-- The graph that the threads of `create` leave, in whatever order they do their work.
use icsa_artifact.Base.{
  ℕ, zero, suc, ◌+◌, ◌-◌, ◌≤◌, ◌<◌, ◌≡◌, refl, sym, ◌∙◌, ap, subst, ◌&&◌, Option, List, [], ◌∷◌,
  arith, ltb, lt→ltb, leb, if◌then◌else◌, length, replicate, length-replicate, Bool-cases, inl, inr,
  Perm, dec_le, ◌==◌,
}
use icsa_artifact.Base.Int.{pos}
use icsa_artifact.Text.{Text}
use icsa_artifact.Dag.{
  Matrix, TransactionStruct, DagModule, entry, linked, zero_row, extract_all, first_row, past_row,
}
use icsa_artifact.Dag
use icsa_artifact.Dag.Create.{filled, conflict_entry}
use icsa_artifact.Dag.Grid.{get_or-replicate}
use icsa_artifact.Dag.Partition.{
  first_row-zero, first_row-suc, first_row-threads, first_row-le, first_row_mono,
}
use icsa_artifact.Serial.{Graph, add_edge}
use icsa_artifact.Serial.Degrees.{Degrees, Degrees-bump, next, marked, unmarked, above, edge}
use icsa_artifact.Serial.Build.{Built, sum-conflict_entry}
use icsa_artifact.Workers.Sum.{sum, sum_same}
use icsa_artifact.Parallel.Threads.{countdown, total_of, total_of-Perm, Perm-AllListed}
use icsa_artifact.Parallel.Graph.{fill_row, fill_rows, dependency_matrix, run_threads, create}

zero_add : (x : ℕ) → 0 + x ≡ x
zero_add x = omega arith

sum_mono : (f : ℕ → ℕ) (i j : ℕ) → i ≤ j → sum f i ≤ sum f j
sum_mono f i zero h = let e : i ≡ 0 = omega arith in rw e (omega arith)
sum_mono f i (suc j) h = elim (dec_le i j) [
  | yes le ↦ omega (arith, sum_mono f i j le)
  | no at ↦ let e : i ≡ suc j = omega arith in rw e (omega arith)
]

module _ (txns : List TransactionStruct) (n : ℕ) where
  fill_row-matrix :
      (i j left : ℕ) (g : Graph) → (fill_row txns i j left g).0 ≡ Dag.fill_row txns i j left g.0
  unfolding fill_row Dag.fill_row
  fill_row-matrix i j zero g = refl
  fill_row-matrix i j (suc left) g = elim (Bool-cases (linked txns i j)) [
    | inl yes' ↦
        rw (fill_row, Dag.fill_row, next j, yes') (fill_row-matrix i (suc j) left (add_edge i j g))
    | inr no' ↦ rw (fill_row, Dag.fill_row, next j, no') (fill_row-matrix i (suc j) left g)
  ]

  fill_row-Degrees :
      (i j left : ℕ) (g : Graph) (f : ℕ → ℕ)
      → j + left ≡ n
      → Degrees n g.1 f
      → Degrees n
          (fill_row txns i j left g).1
          (λ b. f b + (if leb j b && linked txns i b then 1 else 0))
  unfolding fill_row
  fill_row-Degrees i j zero g f h d = record {
    size = d.size;
    at = λ b hb. d.at b hb ∙ ground arith;
  }
  fill_row-Degrees i j (suc left) g f h d = elim (Bool-cases (linked txns i j)) [
    | inl yes' ↦
        let r =
          fill_row-Degrees i (suc j) left (add_edge i j g) (λ b. f b + (if j == b then 1 else 0))
            (omega arith) (Degrees-bump n g.1 f j (omega arith) d) in
        rw (fill_row, yes')
          (record {
            size = r.size;
            at = λ b hb. r.at b hb ∙ ap pos (marked (linked txns i) j b (f b) yes');
          })
    | inr no' ↦
        let r = fill_row-Degrees i (suc j) left g f (omega arith) d in
        rw (fill_row, no')
          (record {
            size = r.size;
            at = λ b hb. r.at b hb ∙ ap pos (unmarked (linked txns i) j b (f b) no');
          })
  ]

  fill_rows-matrix :
      (i left : ℕ) (g : Graph)
      → i + left ≤ n
      → (fill_rows txns n i left g).0 ≡ Dag.fill_rows txns n i left g.0
  unfolding fill_rows Dag.fill_rows
  fill_rows-matrix i zero g h = refl
  fill_rows-matrix i (suc left) g h =
      let below = lt→ltb i n (omega arith) in
      rw (fill_rows, Dag.fill_rows, next i, below, ← fill_row-matrix i (suc i) (n - suc i) g)
        (fill_rows-matrix (suc i) left (fill_row txns i (suc i) (n - suc i) g) (omega arith))

  -- The edges into `b` from the transactions before `i`.
  abbrev column : ℕ → ℕ → ℕ
  column b i = sum (λ a. edge txns n a b) i

  fill_rows-Degrees :
      (i left : ℕ) (g : Graph) (f : ℕ → ℕ)
      → i + left ≤ n
      → Degrees n g.1 f
      → Degrees n (fill_rows txns n i left g).1 (λ b. f b + (column b (i + left) - column b i))
  unfolding fill_rows
  fill_rows-Degrees i zero g f h d = record {
    size = d.size;
    at = λ b hb. let e : i + 0 ≡ i = omega arith in d.at b hb ∙ ap pos (rw e (omega arith));
  }
  fill_rows-Degrees i (suc left) g f h d =
      let r =
        fill_rows-Degrees (suc i) left (fill_row txns i (suc i) (n - suc i) g) _ (omega arith)
          (fill_row-Degrees i (suc i) (n - suc i) g f (omega arith) d) in
      record {
        size = r.size;
        at = λ b hb.
            r.at b hb
            ∙ ap pos (
                let e : i + suc left ≡ suc i + left = omega arith in
                rw e (
                  omega (
                    arith,
                    above (linked txns i) i b (f b),
                    sum_mono (λ a. edge txns n a b) (suc i) (suc i + left) (omega arith),
                  )));
      }

  module _ (threads : ℕ) (some_thread : 0 < threads) where
    past_row-le : (pid : ℕ) → pid < threads → past_row n threads pid ≤ n
    past_row-le pid lt = omega (
      arith,
      first_row-suc n threads pid,
      first_row_mono n threads (suc pid) threads (omega arith),
      first_row-threads n threads some_thread,
    )

    -- What a thread counts into `b`.
    abbrev width : ℕ → ℕ → ℕ
    width b pid = column b (past_row n threads pid) - column b (first_row n threads pid)

    abbrev is_none : ℕ → ℕ
    is_none pid = if ltb pid threads then 0 else 1

    thread-matrix :
        (pid : ℕ) (g : Graph)
        → pid < threads
        → (dependency_matrix txns n threads pid g).0 ≡ Dag.dependency_matrix txns n threads pid g.0
    unfolding dependency_matrix Dag.dependency_matrix
    thread-matrix pid g lt =
        fill_rows-matrix _ _ g (omega (arith, past_row-le pid lt, first_row-le n threads pid))

    thread-Degrees :
        (pid : ℕ) (g : Graph) (f : ℕ → ℕ)
        → pid < threads
        → Degrees n g.1 f
        → Degrees n (dependency_matrix txns n threads pid g).1 (λ b. f b + width b pid)
    unfolding dependency_matrix
    thread-Degrees pid g f lt d =
        let lo = first_row n threads pid in
        let hi = past_row n threads pid in
        let e : lo + (hi - lo) ≡ hi = omega (arith, first_row-le n threads pid) in
        subst
          (λ k.
            Degrees n (fill_rows txns n lo (hi - lo) g).1 (λ b. f b + (column b k - column b lo)))
          e (fill_rows-Degrees lo (hi - lo) g f (omega (arith, past_row-le pid lt)) d)

    threads-matrix :
        (order : List ℕ) (g : Graph)
        → total_of is_none order ≡ 0
        → (run_threads txns n threads order g).0 ≡ Dag.run_threads txns n threads order g.0
    unfolding run_threads Dag.run_threads
    threads-matrix [] g h = refl
    threads-matrix (pid ∷ pids) g h =
        rw (run_threads, Dag.run_threads, ← thread-matrix pid g (ground arith))
          (threads-matrix pids (dependency_matrix txns n threads pid g) (omega arith))

    threads-Degrees :
        (order : List ℕ) (g : Graph) (f : ℕ → ℕ)
        → total_of is_none order ≡ 0
        → Degrees n g.1 f
        → Degrees n (run_threads txns n threads order g).1 (λ b. f b + total_of (width b) order)
    unfolding run_threads
    threads-Degrees [] g f h d = record {
      size = d.size;
      at = λ b hb. d.at b hb ∙ ap pos (omega arith);
    }
    threads-Degrees (pid ∷ pids) g f h d =
        let r =
          threads-Degrees pids (dependency_matrix txns n threads pid g) _ (omega arith)
            (thread-Degrees pid g f (ground arith) d) in
        record { size = r.size; at = λ b hb. r.at b hb ∙ ap pos (omega arith) }

    total_of-width : (b k : ℕ) → total_of (width b) (countdown k) ≡ column b (first_row n threads k)
    total_of-width b zero = rw (first_row-zero n threads)
    total_of-width b (suc k) = rw (first_row-suc n threads k) (
        omega (
          arith,
          total_of-width b k,
          sum_mono (λ a. edge txns n a b) (first_row n threads k) (past_row n threads k)
              (first_row-le n threads k),
        ))

    is_none-countdown : (k : ℕ) → k ≤ threads → total_of is_none (countdown k) ≡ 0
    is_none-countdown zero h = refl
    is_none-countdown (suc k) h = ground (arith, is_none-countdown k)

-- With every thread run once, in any order, `create` leaves the matrix of conflicts and its column
-- sums for in-degrees.
pub create-Built :
    (parse : Text → Option (List Text × List Text)) (order : List ℕ) (headers : List Text)
    (threads : ℕ) (dag : DagModule)
    → 0 < threads
    → Perm order (countdown threads)
    → Built (extract_all parse headers 0) (length headers) (create parse order headers threads dag)
unfolding create
create-Built parse order headers threads dag some_thread p =
    let n = length headers in
    let txns = extract_all parse headers 0 in
    let zeros = replicate n (zero_row n) in
    let known : total_of (is_none txns n threads some_thread) order ≡ 0 =
      total_of-Perm _ order (countdown threads) p
      ∙ is_none-countdown txns n threads some_thread threads (omega arith) in
    let at : (a b : ℕ)
        → entry (run_threads txns n threads order (zeros, replicate n (pos 0))).0 a b
          ≡ conflict_entry txns n a b =
      λ a b.
        ap (λ m. entry m a b)
          (threads-matrix txns n threads some_thread order (zeros, replicate n (pos 0)) known)
        ∙ filled txns n threads order a b some_thread (Perm-AllListed threads order p) in
    let degrees =
      threads-Degrees txns n threads some_thread order (zeros, replicate n (pos 0)) (λ b. 0) known
        (record {
          size = length-replicate n (pos 0);
          at = λ b h. get_or-replicate n b (pos 0) (pos 0) h;
        }) in
    record {
      total = refl;
      edges = at;
      degrees = record {
        size = degrees.size;
        at = λ b h.
            degrees.at b h
            ∙ ap pos (
                zero_add (total_of (width txns n threads some_thread b) order)
                ∙ total_of-Perm (width txns n threads some_thread b) order (countdown threads) p
                ∙ total_of-width txns n threads some_thread b threads
                ∙ ap (column txns n b) (first_row-threads n threads some_thread)
                ∙ sum-conflict_entry txns n b h
                ∙ sum_same _ _ n (λ a ha. sym (at a b)));
      };
    }
