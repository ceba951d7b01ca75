-- ===== src/Serial/Build.antt =====
-- The graph that `create` leaves.
use icsa_artifact.Base.{
  ℕ, zero, suc, ◌+◌, ◌<◌, ◌≡◌, refl, sym, ◌∙◌, ap, ap₂, ◌&&◌, Option, some, List, [], ◌∷◌, ◌++◌,
  arith, ltb, if◌then◌else◌, length, get_or, replicate, length-replicate,
}
use icsa_artifact.Base.Int.{pos}
use icsa_artifact.Text.{Text}
use icsa_artifact.Dag.{
  Matrix, TransactionStruct, DagModule, no_addresses, entry, linked, zero_row, extract_all, resize,
  extract_transaction,
}
use icsa_artifact.Dag
use icsa_artifact.Dag.Grid.{get_or-replicate, zeros-IsSquare, entry-zeros}
use icsa_artifact.Dag.Rows.{entry-fill_rows}
use icsa_artifact.Dag.Create.{conflict_entry, entry-create, resize-nil, AllListed}
use icsa_artifact.Serial.{create, fill}
use icsa_artifact.Serial.Compare.{Counted}
use icsa_artifact.Serial.Degrees.{Degrees, all_done, AllCounted}
use icsa_artifact.Workers.Sum.{sum, sum_same}

-- Every header parses.
abbrev pub Parses : (Text → Option (List Text × List Text)) → List Text → Type 0
Parses parse [] = Unit
Parses parse (h ∷ hs) = ((a : List Text × List Text) × (parse h ≡ some a)) × Parses parse hs

Counted-extract :
    (parse : Text → Option (List Text × List Text)) (headers : List Text) (k i : ℕ)
    → Parses parse headers
    → i < length headers
    → Counted (get_or (extract_all parse headers k) i (no_addresses 0))
unfolding extract_all extract_transaction
Counted-extract parse [] k i p h = absurd (omega arith)
Counted-extract parse (t ∷ ts) k zero ((a, e), p) h =
    rw (e, extract_transaction) (record { ins = refl; outs = refl })
Counted-extract parse (t ∷ ts) k (suc i) (_, p) h =
    Counted-extract parse ts (k + 1) i p (omega arith)

-- The graph of a block of `n` transactions: the matrix of conflicts and its column sums.
pub record Built (txns : List TransactionStruct) (n : ℕ) (dag : DagModule) : Type 0 where
  pub total : dag.total_txns ≡ n
  pub edges : (a b : ℕ) → entry dag.adjacency_matrix a b ≡ conflict_entry txns n a b
  pub degrees : Degrees n dag.in_degree (λ b. sum (λ a. entry dag.adjacency_matrix a b) n)

pub sum-conflict_entry :
    (txns : List TransactionStruct) (n b : ℕ)
    → b < n
    → sum (λ a. if ltb a b && linked txns a b then 1 else 0) n
      ≡ sum (λ a. conflict_entry txns n a b) n
sum-conflict_entry txns n b h = sum_same _ _ n (λ a ha. ground arith)

pub Built-create :
    (parse : Text → Option (List Text × List Text)) (headers : List Text) (dag : DagModule)
    → dag.current_transactions ≡ []
    → dag.adjacency_matrix ≡ []
    → Parses parse headers
    → (dag' : DagModule) × (create parse headers dag ≡ some dag')
      × (dag'.completed_txns ≡ dag.completed_txns)
      × Built (extract_all parse headers 0) (length headers) dag'
unfolding create fill
Built-create parse headers dag no_txns no_matrix p =
    let n = length headers in
    let txns = extract_all parse headers 0 in
    let zeros = replicate n (zero_row n) in
    let counted : AllCounted txns n = λ i. Counted-extract parse headers 0 i p in
    let r = all_done txns n counted 0 n zeros (replicate n (pos 0)) (omega arith) (record {
      size = length-replicate n (pos 0);
      at = λ b h. get_or-replicate n b (pos 0) (pos 0) h;
    }) in
    let d : DagModule = record dag {
      current_transactions = txns;
      total_txns = n;
      adjacency_matrix = Dag.fill_rows txns n 0 n zeros;
      in_degree = r.degrees';
    } in
    let at : (a b : ℕ) → entry (Dag.fill_rows txns n 0 n zeros) a b ≡ conflict_entry txns n a b =
      λ a b.
        entry-fill_rows txns n 0 n a b zeros (zeros-IsSquare n)
        ∙ rw (entry-zeros n n a b) (ground arith) in
    (
      d,
      ap₂ (λ ts m. fill (ts ++ txns) n (resize n (zero_row n) m) dag) no_txns no_matrix
          ∙ rw (resize-nil n (zero_row n), fill, r.runs) refl,
      refl,
      record {
        total = refl;
        edges = at;
        degrees = record {
          size = r.counts.size;
          at = λ b h.
              r.counts.at b h
              ∙ ap pos (
                  sum-conflict_entry txns n b h
                  ∙ sum_same (λ a. entry (Dag.fill_rows txns n 0 n zeros) a b)
                      (λ a. conflict_entry txns n a b) n (λ a ha. sym (at a b)));
        };
      },
    )

-- On clean modules, with every header parsing, the serial `create` returns, its matrix has the
-- entries of the one that the distributed node's `create` leaves with any number of threads from
-- one on, each run once or more in any order, and every in-degree is the sum of its column.
pub same_graph :
    (parse : Text → Option (List Text × List Text)) (headers : List Text) (dag node : DagModule)
    (order : List ℕ) (threads : ℕ)
    → dag.current_transactions ≡ []
    → dag.adjacency_matrix ≡ []
    → node.current_transactions ≡ []
    → node.adjacency_matrix ≡ []
    → 0 < threads
    → AllListed threads order
    → Parses parse headers
    → (dag' : DagModule) × (create parse headers dag ≡ some dag')
      × ((a b : ℕ)
          → entry dag'.adjacency_matrix a b
            ≡ entry (Dag.create parse order headers threads node).adjacency_matrix a b)
      × ((b : ℕ)
          → b < length headers
          → get_or dag'.in_degree b (pos 0)
            ≡ pos (sum (λ a. entry dag'.adjacency_matrix a b) (length headers)))
same_graph parse headers dag node order threads t m t' m' some_thread all p =
    let (dag', runs, _, built) = Built-create parse headers dag t m p in
    (
      dag',
      runs,
      λ a b.
          built.edges a b
          ∙ sym (entry-create parse order headers threads node t' m' some_thread all a b),
      built.degrees.at,
    )
