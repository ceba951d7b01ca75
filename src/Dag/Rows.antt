-- ===== src/Dag/Rows.antt =====
-- The loops of `dependencyMatrix`: which entries they set.
use icsa_artifact.Base.{
  ℕ, zero, suc, ◌+◌, ◌-◌, ◌<◌, ◌≡◌, refl, ◌∙◌, Bool, ◌&&◌, List, arith, ltb, leb, ◌==◌,
  if◌then◌else◌, ltb→lt, Bool-cases, inl, inr,
}
use icsa_artifact.Dag.{Matrix, entry, set_entry, linked, fill_row, fill_rows, TransactionStruct}
use icsa_artifact.Dag.Grid.{IsSquare, set_entry-IsSquare, entry-set_entry}

-- One more column of a row, and one more row.
next_column :
    (p : ℕ → Bool) (i j a b n x : ℕ)
    → j < n
    → (if i == a && (leb (j + 1) b && (ltb b n && p b))
        then 1
        else if i == a && (j == b && p j)
        then 1
        else x)
      ≡ (if i == a && (leb j b && (ltb b n && p b)) then 1 else x)
next_column p i j a b n x h = ground arith

next_row :
    (p : ℕ → Bool) (i left a b n x : ℕ) (q : ℕ → Bool)
    → q i ≡ p b
    → (if leb (i + 1) a && (ltb a (i + 1 + left) && (ltb a n && (ltb a b && (ltb b n && q a))))
        then 1
        else if i == a && (leb (i + 1) b && (ltb b n && p b))
        then 1
        else x)
      ≡ (if leb i a && (ltb a (i + suc left) && (ltb a n && (ltb a b && (ltb b n && q a))))
          then 1
          else x)
next_row p i left a b n x q h = ground arith

module _ (txns : List TransactionStruct) (n : ℕ) where
  mark-IsSquare :
      (m : Matrix) (i j : ℕ)
      → IsSquare n m
      → IsSquare n (if linked txns i j then set_entry m i j 1 else m)
  mark-IsSquare m i j s = elim (Bool-cases (linked txns i j)) [
    | inl yes' ↦ rw yes' (set_entry-IsSquare n m s i j 1)
    | inr no' ↦ rw no' s
  ]

  fill_row-IsSquare :
      (i j left : ℕ) (m : Matrix) → IsSquare n m → IsSquare n (fill_row txns i j left m)
  unfolding fill_row
  fill_row-IsSquare i j zero m s = s
  fill_row-IsSquare i j (suc left) m s = fill_row-IsSquare i (j + 1) left _ (mark-IsSquare m i j s)

  entry-mark :
      (m : Matrix) (i j a b : ℕ)
      → IsSquare n m
      → i < n
      → j < n
      → entry (if linked txns i j then set_entry m i j 1 else m) a b
        ≡ (if i == a && (j == b && linked txns i j) then 1 else entry m a b)
  entry-mark m i j a b s hi hj = elim (Bool-cases (linked txns i j)) [
    | inl yes' ↦ rw yes' (entry-set_entry n m s i j 1 a b hi hj ∙ ground arith)
    | inr no' ↦ rw no' (ground arith)
  ]

  -- The inner loop sets the entries of its row at the linked columns from `j` on.
  entry-fill_row :
      (i j left a b : ℕ) (m : Matrix)
      → IsSquare n m
      → i < n
      → j + left ≡ n
      → entry (fill_row txns i j left m) a b
        ≡ (if i == a && (leb j b && (ltb b n && linked txns i b)) then 1 else entry m a b)
  unfolding fill_row
  entry-fill_row i j zero a b m s hi h = ground arith
  entry-fill_row i j (suc left) a b m s hi h =
      entry-fill_row i (j + 1) left a b _ (mark-IsSquare m i j s) hi (omega arith)
      ∙ rw (entry-mark m i j a b s hi (omega arith))
          (next_column (linked txns i) i j a b n (entry m a b) (omega arith))

  pub fill_rows-IsSquare :
      (i left : ℕ) (m : Matrix) → IsSquare n m → IsSquare n (fill_rows txns n i left m)
  unfolding fill_rows
  fill_rows-IsSquare i zero m s = s
  fill_rows-IsSquare i (suc left) m s = elim (Bool-cases (ltb i n)) [
    | inl below ↦
        rw below (fill_rows-IsSquare (i + 1) left _ (fill_row-IsSquare i (i + 1) (n - (i + 1)) m s))
    | inr past ↦ rw past s
  ]

  -- Whether the loops set the entry of row `a` and column `b`.
  abbrev pub is_set : ℕ → ℕ → Bool
  is_set a b = ltb a n && (ltb a b && (ltb b n && linked txns a b))

  -- The outer loop sets the linked entries above the diagonal in its rows.
  pub entry-fill_rows :
      (i left a b : ℕ) (m : Matrix)
      → IsSquare n m
      → entry (fill_rows txns n i left m) a b
        ≡ (if leb i a && (ltb a (i + left) && is_set a b) then 1 else entry m a b)
  unfolding fill_rows
  entry-fill_rows i zero a b m s = ground arith
  entry-fill_rows i (suc left) a b m s = elim (Bool-cases (ltb i n)) [
    | inl below ↦ rw below (
        entry-fill_rows (i + 1) left a b _ (fill_row-IsSquare i (i + 1) (n - (i + 1)) m s)
        ∙ rw (entry-fill_row i (i + 1) (n - (i + 1)) a b m s (ltb→lt i n below) (ground arith))
            (next_row (linked txns i) i left a b n (entry m a b) (λ k. linked txns k b) refl))
    | inr past ↦ rw past (ground arith)
  ]
