-- ===== src/Serial/Degrees.antt =====
-- What the loops of `dependencyMatrix` leave in the matrix and in the in-degrees.
use icsa_artifact.Base.{
  ℕ, zero, suc, ◌+◌, ◌-◌, ◌<◌, ◌≡◌, refl, ◌∙◌, subst, ap, Bool, true, false, ◌&&◌, some, List,
  arith, ltb, lt→ltb, leb, ◌==◌, if◌then◌else◌, length, get_or, set, length-set, Bool-cases, inl,
  inr,
}
use icsa_artifact.Base.Int.{ℤ, pos, ◌+ℤ◌}
use icsa_artifact.Dag.{Matrix, TransactionStruct, no_addresses, entry, set_entry, linked, depends}
use icsa_artifact.Dag
use icsa_artifact.Dag.Grid.{get_or-set}
use icsa_artifact.Serial.{flag_at, fill_row, fill_rows}
use icsa_artifact.Serial.Compare.{Counted, flag_of-depends}
use icsa_artifact.Workers.Sum.{sum}

-- The `n` in-degrees, given by a function.
pub record Degrees (n : ℕ) (degrees : List ℤ) (f : ℕ → ℕ) : Type 0 where
  pub size : length degrees ≡ n
  pub at : (b : ℕ) → b < n → get_or degrees b (pos 0) ≡ pos (f b)

pub Degrees-bump :
    (n : ℕ) (degrees : List ℤ) (f : ℕ → ℕ) (j : ℕ)
    → j < n
    → Degrees n degrees f
    → Degrees n
        (set degrees j (get_or degrees j (pos 0) +ℤ pos 1))
        (λ b. f b + (if j == b then 1 else 0))
unfolding ◌+ℤ◌
Degrees-bump n degrees f j h d = record {
  size = omega (arith, length-set degrees j (get_or degrees j (pos 0) +ℤ pos 1), d.size);
  at = λ b hb.
      rw
        (
          get_or-set degrees j b (get_or degrees j (pos 0) +ℤ pos 1) (pos 0),
          d.at j h,
          d.at b hb,
          d.size,
        )
        (ground arith);
}

pub next : (j : ℕ) → j + 1 ≡ suc j
next j = omega arith

pub marked :
    (p : ℕ → Bool) (j b x : ℕ)
    → p j ≡ true
    → x + (if j == b then 1 else 0) + (if leb (suc j) b && p b then 1 else 0)
      ≡ x + (if leb j b && p b then 1 else 0)
marked p j b x h = ground arith

pub unmarked :
    (p : ℕ → Bool) (j b x : ℕ)
    → p j ≡ false
    → x + (if leb (suc j) b && p b then 1 else 0) ≡ x + (if leb j b && p b then 1 else 0)
unmarked p j b x h = ground arith

pub above :
    (p : ℕ → Bool) (i b x : ℕ)
    → x + (if leb (suc i) b && p b then 1 else 0) ≡ x + (if ltb i b && p b then 1 else 0)
above p i b x = ground arith

module _ (txns : List TransactionStruct) (n : ℕ) where
  -- Every transaction has its counts.
  abbrev pub AllCounted : Type 0
  AllCounted = (i : ℕ) → i < n → Counted (get_or txns i (no_addresses 0))

  -- 1 if there is an edge from `a` to `b`.
  abbrev pub edge : ℕ → ℕ → ℕ
  edge a b = if ltb a b && linked txns a b then 1 else 0

  module _ (counted : AllCounted) where
    record RowDone (i j left : ℕ) (m : Matrix) (degrees : List ℤ) (f : ℕ → ℕ) : Type 0 where
      degrees' : List ℤ
      runs : fill_row txns i j left (m, degrees) ≡ some (Dag.fill_row txns i j left m, degrees')
      counts : Degrees n degrees' (λ b. f b + (if leb j b && linked txns i b then 1 else 0))

    flag : (i j : ℕ) → i < n → j < n → flag_at txns i j ≡ some (linked txns i j)
    flag i j hi hj = flag_of-depends _ _ (counted i hi) (counted j hj)

    row_done :
        (i j left : ℕ) (m : Matrix) (degrees : List ℤ) (f : ℕ → ℕ)
        → i < n
        → j + left ≡ n
        → Degrees n degrees f
        → RowDone i j left m degrees f
    unfolding fill_row Dag.fill_row
    row_done i j zero m degrees f hi h d = record {
      degrees' = degrees;
      runs = refl;
      counts = record { size = d.size; at = λ b hb. d.at b hb ∙ ground arith };
    }
    row_done i j (suc left) m degrees f hi h d = elim (Bool-cases (linked txns i j)) [
      | inl yes' ↦
          let r =
            row_done i (suc j) left (set_entry m i j 1)
              (set degrees j (get_or degrees j (pos 0) +ℤ pos 1))
              (λ b. f b + (if j == b then 1 else 0)) hi (omega arith)
              (Degrees-bump n degrees f j (omega arith) d) in
          record {
            degrees' = r.degrees';
            runs = rw (fill_row, flag i j hi (omega arith), Dag.fill_row, next j, yes') r.runs;
            counts = record {
              size = r.counts.size;
              at = λ b hb. r.counts.at b hb ∙ ap pos (marked (linked txns i) j b (f b) yes');
            };
          }
      | inr no' ↦
          let r = row_done i (suc j) left m degrees f hi (omega arith) d in
          record {
            degrees' = r.degrees';
            runs = rw (fill_row, flag i j hi (omega arith), Dag.fill_row, next j, no') r.runs;
            counts = record {
              size = r.counts.size;
              at = λ b hb. r.counts.at b hb ∙ ap pos (unmarked (linked txns i) j b (f b) no');
            };
          }
    ]

    pub record AllDone (i left : ℕ) (m : Matrix) (degrees : List ℤ) : Type 0 where
      pub degrees' : List ℤ
      pub runs :
          fill_rows txns n i left (m, degrees) ≡ some (Dag.fill_rows txns n i left m, degrees')
      pub counts : Degrees n degrees' (λ b. sum (λ a. edge a b) n)

    pub all_done :
        (i left : ℕ) (m : Matrix) (degrees : List ℤ)
        → i + left ≡ n
        → Degrees n degrees (λ b. sum (λ a. edge a b) i)
        → AllDone i left m degrees
    unfolding fill_rows Dag.fill_rows
    all_done i zero m degrees h d =
        let e : i ≡ n = omega arith in
        record {
          degrees' = degrees;
          runs = refl;
          counts = subst (λ k. Degrees n degrees (λ b. sum (λ a. edge a b) k)) e d;
        }
    all_done i (suc left) m degrees h d =
        let hi : i < n = omega arith in
        let r =
          row_done i (suc i) (n - suc i) m degrees (λ b. sum (λ a. edge a b) i) hi (omega arith)
            d in
        let below = lt→ltb i n hi in
        let r' =
          all_done (suc i) left (Dag.fill_row txns i (suc i) (n - suc i) m) r.degrees' (omega arith)
            (record {
              size = r.counts.size;
              at = λ b hb. r.counts.at b hb ∙ ap pos (above (linked txns i) i b _);
            }) in
        record {
          degrees' = r'.degrees';
          runs = rw (fill_rows, r.runs, Dag.fill_rows, next i, below) r'.runs;
          counts = r'.counts;
        }
