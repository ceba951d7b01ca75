-- ===== src/Scheduler/Carry.antt =====
-- The matrix that a node has after it was written by another one.
use icsa_artifact.Base.{
  ℕ, suc, ◌+◌, ◌-◌, ◌<◌, ◌≡◌, refl, ◌∙◌, ap, true, ◌&&◌, some, List, [], ◌∷◌, arith, ltb, leb, ◌==◌,
  if◌then◌else◌, length, get_or, replicate,
}
use icsa_artifact.Base.Int.{negsuc}
use icsa_artifact.Text.{Text}
use icsa_artifact.Dag.{Matrix, DagModule, entry, set_entry, zero_row}
use icsa_artifact.Dag.Create.{resize-nil}
use icsa_artifact.Dag.Grid.{IsSquare, set_entry-IsSquare, entry-set_entry, zeros-IsSquare}
use icsa_artifact.Scheduler.Wire.{GraphCodec, copy_edges, copy_rows, serialize_dag, extract_dag}

-- The element at `b - j`, one further from the front.
get_or-next {ℓ} :
    {A : Type ℓ} (x d : A) (xs : List A) (j b : ℕ)
    → j < b
    → get_or (x ∷ xs) (b - j) d ≡ get_or xs (b - suc j) d
get_or-next x d xs j b h = let q : b - j ≡ suc (b - suc j) = omega arith in rw q refl

get_or-here {ℓ} :
    {A : Type ℓ} (x d : A) (xs : List A) (j b : ℕ) → j ≡ b → get_or (x ∷ xs) (b - j) d ≡ x
get_or-here x d xs j b h = let q : b - j ≡ 0 = omega arith in rw q refl

module _ (n : ℕ) where
  copy_edges-IsSquare :
      (i j : ℕ) (edges : List ℕ) (m : Matrix)
      → IsSquare n m
      → i < n
      → j + length edges ≡ n
      → IsSquare n (copy_edges i j edges m)
  unfolding copy_edges
  copy_edges-IsSquare i j [] m s hi h = s
  copy_edges-IsSquare i j (e ∷ es) m s hi h =
      let room : ltb j (length (get_or m i [])) ≡ true = ground (arith, s.width i hi) in
      rw (copy_edges, room)
        (copy_edges-IsSquare i (suc j) es (set_entry m i j e) (set_entry-IsSquare n m s i j e) hi
          (omega arith))

  entry-copy_edges :
      (i j : ℕ) (edges : List ℕ) (m : Matrix)
      → IsSquare n m
      → i < n
      → j + length edges ≡ n
      → (a b : ℕ)
      → entry (copy_edges i j edges m) a b
        ≡ (if i == a && (leb j b && ltb b n) then get_or edges (b - j) 0 else entry m a b)
  unfolding copy_edges
  entry-copy_edges i j [] m s hi h a b = ground arith
  entry-copy_edges i j (e ∷ es) m s hi h a b =
      let room : ltb j (length (get_or m i [])) ≡ true = ground (arith, s.width i hi) in
      rw (copy_edges, room)
        (entry-copy_edges i (suc j) es (set_entry m i j e) (set_entry-IsSquare n m s i j e) hi
            (omega arith) a b
          ∙ ground (
            arith,
            entry-set_entry n m s i j e a b hi (omega arith),
            get_or-next e 0 es j b,
            get_or-here e 0 es j b,
          ))

  -- The rows of a message, each of `n` edges.
  abbrev Rows : List (List ℕ) → Type 0
  Rows [] = Unit
  Rows (row ∷ rows) = (length row ≡ n) × Rows rows

  entry-copy_rows :
      (i : ℕ) (rows : List (List ℕ)) (m : Matrix)
      → IsSquare n m
      → Rows rows
      → i + length rows ≡ n
      → (a b : ℕ)
      → entry (copy_rows i rows m) a b ≡ (
          if leb i a && (ltb a n && ltb b n)
          then get_or (get_or rows (a - i) []) b 0
          else entry m a b)
  unfolding copy_rows
  entry-copy_rows i [] m s r h a b = ground arith
  entry-copy_rows i (row ∷ rows) m s (w, r) h a b =
      let hi : i < n = omega arith in
      let room : ltb i (length m) ≡ true = ground (arith, s.height) in
      let zero_less : b - 0 ≡ b = omega arith in
      rw (copy_rows, room)
        (entry-copy_rows (suc i) rows (copy_edges i 0 row m)
            (copy_edges-IsSquare i 0 row m s hi (omega arith)) r (omega arith) a b
          ∙ ground (
            arith,
            entry-copy_edges i 0 row m s hi (omega arith) a b,
            zero_less,
            λ (e : i ≡ a). ap (λ l. get_or l b 0) (get_or-here row [] rows i a e),
            λ (l : i < a). ap (λ r. get_or r b 0) (get_or-next row [] rows i a l),
          ))

  Rows-square :
      (rows : List (List ℕ))
      → ((i : ℕ) → i < length rows → length (get_or rows i []) ≡ n)
      → Rows rows
  Rows-square [] w = tt
  Rows-square (row ∷ rows) w =
      (w 0 (omega arith), Rows-square rows (λ i h. w (suc i) (omega arith)))

-- If protobuf writes the message, the matrix is square with `n` rows and the receiver has no matrix
-- yet, then `extractDAG` of what `serializeDAG` wrote gives the receiver `n` transactions, an
-- in-degree of -1 for each, and a matrix with the entries of the one that was written.
pub extract-serialize :
    (codec : GraphCodec) (n : ℕ) (dag receiver : DagModule) (text : Text)
    → IsSquare n dag.adjacency_matrix
    → receiver.adjacency_matrix ≡ []
    → codec.serialize (record {
      num_nodes = length dag.adjacency_matrix;
      adjacency_matrix = dag.adjacency_matrix;
    })
      ≡ some text
    → let dag' = extract_dag codec (serialize_dag codec dag) receiver in
      (dag'.total_txns ≡ n)
      × (dag'.in_degree ≡ replicate n (negsuc 0))
      × ((a b : ℕ)
          → a < n
          → b < n
          → entry dag'.adjacency_matrix a b ≡ entry dag.adjacency_matrix a b)
unfolding extract_dag serialize_dag
extract-serialize codec n dag receiver text s clean written =
    let back = codec.parse-serialize _ text written in
    let zeros = resize-nil n (zero_row n) in
    (
      rw (serialize_dag, written, extract_dag, back) s.height,
      rw (serialize_dag, written, extract_dag, back) (ap (λ k. replicate k (negsuc 0)) s.height),
      λ a b ha hb.
          rw (serialize_dag, written, extract_dag, back, clean, s.height, zeros)
            (entry-copy_rows n 0 dag.adjacency_matrix (replicate n (zero_row n)) (zeros-IsSquare n)
                (Rows-square n dag.adjacency_matrix (λ i h. s.width i (omega (arith, s.height))))
                (omega (arith, s.height)) a b
              ∙ ground arith),
    )
