-- ===== src/Serial/Step.antt =====
-- One turn of the loop of `executeTxns`: `selectTxn` and `complete` on a graph of which the first
-- transactions are done.
use icsa_artifact.Base.{
  ℕ, zero, suc, ◌+◌, ◌-◌, ◌≤◌, ◌<◌, ◌≡◌, refl, ◌∙◌, ap, Bool, true, false, ◌&&◌, some, List, [],
  ◌∷◌, arith, ltb, leb, ◌==◌, if◌then◌else◌, length, get_or, set, length-set, dec_lt, Bool-cases,
  inl, inr,
}
use icsa_artifact.Base.Int.{ℤ, pos, negsuc, ◌+ℤ◌, ◌-ℤ◌}
use icsa_artifact.Dag.{Matrix, DagModule, entry}
use icsa_artifact.Dag.Grid.{get_or-set}
use icsa_artifact.Serial.{is_free, scan, second_loop, select_txn, release, complete}
use icsa_artifact.Workers.Sum.{sum, sum_change, sum-eq-zero}

pub get_or-default : (xs : List ℤ) (i : ℕ) (d e : ℤ) → i < length xs → get_or xs i d ≡ get_or xs i e
get_or-default [] i d e h = absurd (omega arith)
get_or-default (x ∷ xs) zero d e h = refl
get_or-default (x ∷ xs) (suc i) d e h = get_or-default xs i d e (omega arith)

-- The edges into `b` from transactions that are not done, if the first `k` are done.
abbrev pub pending : (adj : ℕ → ℕ → ℕ) (n k b : ℕ) → ℕ
pending adj n k b = sum (λ a. if ltb a k then 0 else adj a b) n

-- The first `k` of `n` transactions are done.
pub record Done (adj : ℕ → ℕ → ℕ) (n k : ℕ) (dag : DagModule) : Type 0 where
  pub total : dag.total_txns ≡ n
  pub completed : dag.completed_txns ≡ pos k
  pub edges : (a b : ℕ) → entry dag.adjacency_matrix a b ≡ adj a b
  pub size : length dag.in_degree ≡ n
  pub past : (i : ℕ) → i < k → get_or dag.in_degree i (pos 0) ≡ negsuc 1
  pub ahead : (i : ℕ) → k ≤ i → i < n → get_or dag.in_degree i (pos 0) ≡ pos (pending adj n k i)

-- Edges lead to later transactions, and there is at most one between two.
pub record Forward (adj : ℕ → ℕ → ℕ) : Type 0 where
  pub later : (a b : ℕ) → b ≤ a → adj a b ≡ 0
  pub once : (a b : ℕ) → adj a b ≤ 1

scan_finds :
    (i left k : ℕ) (dag : DagModule)
    → i ≤ k
    → k < i + left
    → ((j : ℕ) → j < k → is_free dag.in_degree j ≡ false)
    → is_free dag.in_degree k ≡ true
    → scan i left dag
      ≡ (some k, record dag { in_degree = set dag.in_degree k (negsuc 0); last_txn = k })
unfolding scan
scan_finds i zero k dag lo hi no' yes' = absurd (omega arith)
scan_finds i (suc left) k dag lo hi no' yes' = elim (dec_lt i k) [
  | yes before ↦
      rw (scan, no' i before) (scan_finds (suc i) left k dag (omega arith) (omega arith) no' yes')
  | no at ↦ let e : i ≡ k = omega arith in rw (e, scan, yes') refl
]

at_index :
    (f : ℕ → ℤ) (p : ℕ → Bool) (i b n : ℕ)
    → i < n
    → p i ≡ true
    → (if leb (suc i) b && (ltb b n && p b)
        then (if i == b && ltb i n then f i -ℤ pos 1 else f b) -ℤ pos 1
        else if i == b && ltb i n
        then f i -ℤ pos 1
        else f b)
      ≡ (if leb i b && (ltb b n && p b) then f b -ℤ pos 1 else f b)
at_index f p i b n h e = ground arith

off_index :
    (f : ℕ → ℤ) (p : ℕ → Bool) (i b n : ℕ)
    → p i ≡ false
    → (if leb (suc i) b && (ltb b n && p b) then f b -ℤ pos 1 else f b)
      ≡ (if leb i b && (ltb b n && p b) then f b -ℤ pos 1 else f b)
off_index f p i b n e = ground arith

get_or-release :
    (m : Matrix) (t i left b : ℕ) (degrees : List ℤ)
    → i + left ≡ length degrees
    → get_or (release m t i left degrees) b (pos 0) ≡ (
        if leb i b && (ltb b (length degrees) && entry m t b == 1)
        then get_or degrees b (pos 0) -ℤ pos 1
        else get_or degrees b (pos 0))
unfolding release
get_or-release m t i zero b degrees h = ground arith
get_or-release m t i (suc left) b degrees h = elim (Bool-cases (entry m t i == 1)) [
  | inl edge ↦
      let ds = set degrees i (get_or degrees i (pos 0) -ℤ pos 1) in
      let e : length ds ≡ length degrees =
        length-set degrees i (get_or degrees i (pos 0) -ℤ pos 1) in
      rw (release, edge)
        (get_or-release m t (suc i) left b ds (omega (arith, e))
          ∙ rw (e, get_or-set degrees i b (get_or degrees i (pos 0) -ℤ pos 1) (pos 0))
              (at_index (λ c. get_or degrees c (pos 0)) (λ c. entry m t c == 1) i b (length degrees)
                (omega arith) edge))
  | inr free ↦
      rw (release, free)
        (get_or-release m t (suc i) left b degrees (omega arith)
          ∙ off_index (λ c. get_or degrees c (pos 0)) (λ c. entry m t c == 1) i b (length degrees)
              free)
]

length-release :
    (m : Matrix) (t i left : ℕ) (degrees : List ℤ)
    → length (release m t i left degrees) ≡ length degrees
unfolding release
length-release m t i zero degrees = refl
length-release m t i (suc left) degrees = elim (Bool-cases (entry m t i == 1)) [
  | inl edge ↦
      rw (release, edge)
        (length-release m t (suc i) left (set degrees i (get_or degrees i (pos 0) -ℤ pos 1))
          ∙ length-set degrees i (get_or degrees i (pos 0) -ℤ pos 1))
  | inr free ↦ rw (release, free) (length-release m t (suc i) left degrees)
]

module _ (adj : ℕ → ℕ → ℕ) (forward : Forward adj) (n k : ℕ) (k_lt : k < n) where
  pending_self : pending adj n k k ≡ 0
  pending_self = sum-eq-zero _ n (λ a h. ground (arith, forward.later a k))

  pending-next : (b : ℕ) → k < b → pending adj n (suc k) b + adj k b ≡ pending adj n k b
  pending-next b h =
      let r =
        sum_change (λ a. if ltb a k then 0 else adj a b) (λ a. if ltb a (suc k) then 0 else adj a b)
          n k k_lt (λ j ne. ground arith) in
      ground (arith, r)

  module _ (dag : DagModule) (d : Done adj n k dag) where
    past_default : (j : ℕ) → j < k → get_or dag.in_degree j (negsuc 0) ≡ negsuc 1
    past_default j h =
        get_or-default dag.in_degree j (negsuc 0) (pos 0) (omega (arith, d.size)) ∙ d.past j h

    open_default : get_or dag.in_degree k (negsuc 0) ≡ pos 0
    open_default =
        get_or-default dag.in_degree k (negsuc 0) (pos 0) (omega (arith, d.size))
        ∙ d.ahead k (omega arith) k_lt
        ∙ ap pos pending_self

    pub select-next :
        select_txn dag
        ≡ (some k, record dag { in_degree = set dag.in_degree k (negsuc 0); last_txn = k })
    unfolding select_txn second_loop
    select-next =
        let e =
          scan_finds 0 dag.total_txns k dag (omega arith) (omega (arith, d.total))
            (λ j h. rw (is_free, past_default j h) refl) (rw (is_free, open_default) refl) in
        ap second_loop e

    -- The graph after the transaction is selected and completed.
    abbrev pub next_dag : DagModule
    next_dag = complete k (record dag { in_degree = set dag.in_degree k (negsuc 0); last_txn = k })

    -- The in-degrees with the transaction claimed, and then one less.
    claimed : List ℤ
    claimed = set dag.in_degree k (negsuc 0)

    counted : List ℤ
    counted = set claimed k (get_or claimed k (pos 0) -ℤ pos 1)

    length-counted : length counted ≡ n
    unfolding counted claimed
    length-counted = omega (
      arith,
      length-set (set dag.in_degree k (negsuc 0)) k
          (get_or (set dag.in_degree k (negsuc 0)) k (pos 0) -ℤ pos 1),
      length-set dag.in_degree k (negsuc 0),
      d.size,
    )

    get_or-counted :
        (b : ℕ)
        → get_or counted b (pos 0) ≡ (if k == b then negsuc 1 else get_or dag.in_degree b (pos 0))
    unfolding counted claimed ◌-ℤ◌
    get_or-counted b =
        rw
          (
            counted,
            claimed,
            get_or-set (set dag.in_degree k (negsuc 0)) k b
                (get_or (set dag.in_degree k (negsuc 0)) k (pos 0) -ℤ pos 1) (pos 0),
            length-set dag.in_degree k (negsuc 0),
            get_or-set dag.in_degree k k (negsuc 0) (pos 0),
            get_or-set dag.in_degree k b (negsuc 0) (pos 0),
            d.size,
          )
          (ground arith)

    completed_degrees : List ℤ
    unfolding counted
    completed_degrees = release dag.adjacency_matrix k (suc k) (dag.total_txns - suc k) counted

    get_or-completed :
        (b : ℕ)
        → get_or completed_degrees b (pos 0) ≡ (
            if leb (suc k) b && (ltb b n && adj k b == 1)
            then (if k == b then negsuc 1 else get_or dag.in_degree b (pos 0)) -ℤ pos 1
            else if k == b
            then negsuc 1
            else get_or dag.in_degree b (pos 0))
    unfolding completed_degrees
    get_or-completed b =
        get_or-release dag.adjacency_matrix k (suc k) (dag.total_txns - suc k) b counted
          (omega (arith, length-counted, d.total))
        ∙ rw (length-counted, get_or-counted b, d.edges k b) refl

    pub Done-next : Done adj n (suc k) next_dag
    unfolding complete ◌+ℤ◌ ◌-ℤ◌ completed_degrees counted claimed
    Done-next =
        let below : ltb k dag.total_txns ≡ true = ground (arith, d.total) in
        rw (complete, below)
          (record {
            total = d.total;
            completed = rw d.completed (ground arith);
            edges = d.edges;
            size =
                length-release dag.adjacency_matrix k (suc k) (dag.total_txns - suc k) counted
                ∙ length-counted;
            past = λ i h. get_or-completed i ∙ ground (arith, d.past i);
            ahead = λ i lo hi.
                get_or-completed i
                ∙ ground (
                  arith,
                  d.ahead i (omega arith) hi,
                  pending-next i (omega arith),
                  forward.once k i,
                );
          })
