-- ===== src/Scheduler/Share.antt =====
-- The in-degrees that `ProcessIndegree` stores for the components of a node.
use icsa_artifact.Base.{
  ℕ, zero, suc, ◌+◌, ◌<◌, ◌≡◌, refl, ◌∙◌, Bool, true, false, ◌||◌, ◌==◌, List, [], ◌∷◌, ◌++◌,
  if◌then◌else◌, arith, length, length-set, get_or, Bool-cases, inl, inr,
}
use icsa_artifact.Base.Int.{ℤ, pos, ◌-ℤ◌, int_laws}
use icsa_artifact.Dag.{Matrix, DagModule, entry}
use icsa_artifact.Dag.Grid.{get_or-set}
use icsa_artifact.Workers.Sum.{sum}
use icsa_artifact.Scheduler.{
  Component, Scheduler, column_sum, process_indegree, is_in, check_for_new_components,
  take_component, take_components,
}

pub process_indegree-matrix :
    (cols : List ℕ) (dag : DagModule)
    → (process_indegree cols dag).adjacency_matrix ≡ dag.adjacency_matrix
unfolding process_indegree
process_indegree-matrix [] dag = refl
process_indegree-matrix (col ∷ cols) dag = process_indegree-matrix cols _

process_indegree-append :
    (xs ys : List ℕ) (dag : DagModule)
    → process_indegree (xs ++ ys) dag ≡ process_indegree ys (process_indegree xs dag)
unfolding process_indegree
process_indegree-append [] ys dag = refl
process_indegree-append (x ∷ xs) ys dag = process_indegree-append xs ys _

pub process_indegree-completed :
    (cols : List ℕ) (dag : DagModule)
    → (process_indegree cols dag).completed_txns ≡ dag.completed_txns -ℤ pos (length cols)
unfolding process_indegree
process_indegree-completed [] dag = omega int_laws
process_indegree-completed (col ∷ cols) dag = process_indegree-completed cols _ ∙ omega int_laws

pub process_indegree-in_degree :
    (cols : List ℕ) (dag : DagModule) (i : ℕ) (d : ℤ)
    → i < length dag.in_degree
    → get_or (process_indegree cols dag).in_degree i d
      ≡ (if is_in cols i then pos (column_sum dag.adjacency_matrix i) else get_or dag.in_degree i d)
unfolding process_indegree is_in
process_indegree-in_degree [] dag i d h = refl
process_indegree-in_degree (col ∷ cols) dag i d h =
    process_indegree-in_degree cols _ i d (omega (arith, length-set dag.in_degree col _))
    ∙ ground (arith, get_or-set dag.in_degree col i (pos (column_sum dag.adjacency_matrix col)) d)

sum-first : (f : ℕ → ℕ) (n : ℕ) → sum f (suc n) ≡ f 0 + sum (λ k. f (suc k)) n
sum-first f zero = omega arith
sum-first f (suc n) = omega (arith, sum-first f n)

pub column_sum-sum : (m : Matrix) (i : ℕ) → column_sum m i ≡ sum (λ p. entry m p i) (length m)
unfolding column_sum
column_sum-sum [] i = refl
column_sum-sum (row ∷ rows) i =
    omega (arith, column_sum-sum rows i, sum-first (λ p. entry (row ∷ rows) p i) (length rows))

-- The transactions of the components that are assigned to a node.
abbrev pub own_ids : ℕ → List Component → List ℕ
own_ids node_id [] = []
own_ids node_id (c ∷ cs) =
    if node_id == c.assigned_follower
    then c.transaction_list ++ own_ids node_id cs
    else own_ids node_id cs

-- No component is processed already, and no two have the same id.
abbrev pub FreshIds : List ℕ → List Component → Type 0
FreshIds processed [] = Unit
FreshIds processed (c ∷ cs) =
    (is_in processed c.comp_id ≡ false) × FreshIds (c.comp_id ∷ processed) cs

fewer :
    (many few : List ℕ) (cs : List Component)
    → ((x : ℕ) → is_in many x ≡ false → is_in few x ≡ false)
    → FreshIds many cs
    → FreshIds few cs
unfolding is_in
fewer many few [] sub fresh = tt
fewer many few (c ∷ cs) sub (here, later) =
    (sub c.comp_id here, fewer _ _ cs (λ x h. ground (arith, sub x)) later)

fewer_cons : (x : ℕ) (xs : List ℕ) (cs : List Component) → FreshIds (x ∷ xs) cs → FreshIds xs cs
unfolding is_in
fewer_cons x xs cs fresh = fewer (x ∷ xs) xs cs (λ y h. ground arith) fresh

module _ (marks_update : Bool) (node_id : ℕ) where
  take_own :
      (c : Component) (s : Scheduler)
      → (node_id == c.assigned_follower) ≡ true
      → is_in s.processed_components c.comp_id ≡ false
      → take_component marks_update node_id c s ≡ record s {
        dag = process_indegree c.transaction_list s.dag;
        processed_components = c.comp_id ∷ s.processed_components;
        update_flag = marks_update || s.update_flag;
      }
  unfolding take_component check_for_new_components
  take_own c s own new = rw (own, new, check_for_new_components)

  take_other :
      (c : Component) (s : Scheduler)
      → (node_id == c.assigned_follower) ≡ false
      → take_component marks_update node_id c s ≡ s
  unfolding take_component
  take_other c s other = rw other

  pub take_components-dag :
      (cs : List Component) (s : Scheduler)
      → FreshIds s.processed_components cs
      → (take_components marks_update node_id cs s).dag
        ≡ process_indegree (own_ids node_id cs) s.dag
  unfolding take_components process_indegree
  take_components-dag [] s fresh = refl
  take_components-dag (c ∷ cs) s (here, later) =
      elim (Bool-cases (node_id == c.assigned_follower)) [
        | inl own ↦
            rw (take_components, take_own c s own here, own)
              (take_components-dag cs _ later
                ∙ rw (process_indegree-append c.transaction_list (own_ids node_id cs) s.dag))
        | inr other ↦
            rw (take_components, take_other c s other, other)
              (take_components-dag cs s (fewer_cons c.comp_id s.processed_components cs later))
      ]
