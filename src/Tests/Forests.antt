-- ===== src/Tests/Forests.antt =====
-- The components of a block of three transactions, and the nodes that execute it.
use icsa_artifact.Base.{
  ℕ, ◌==◌, if◌then◌else◌, ◌<◌, ◌≡◌, refl, List, [], ◌∷◌, arith, get_or, some, inl,
}
use icsa_artifact.Base.Int.{pos, negsuc}
use icsa_artifact.Text.{Text, bytes, text_eq}
use icsa_artifact.Dag.{Matrix, create, depends}
use icsa_artifact.Dag.Conflict.{Conflict}
use icsa_artifact.Dag.Create.{txn_at}
use icsa_artifact.Workers.{start}
use icsa_artifact.Takers.{
  Threads, Reach, IsFresh, processing, begin, next, enter, first_load, first_take, store,
  turn_round, second_load, second_take,
}
use icsa_artifact.Workers.Block.{edges}
use icsa_artifact.Scheduler.{is_in, extract_block, extract_components}
use icsa_artifact.Scheduler.Share.{own_ids}
use icsa_artifact.Components.{connected_components}
use icsa_artifact.Components.Closed.{set_followers, components_closed}
use icsa_artifact.Components.Node.{leader_table, node_starts, node_runs_apart}
use icsa_artifact.Tests.Blocks.{own_address, clean}
use icsa_artifact.Tests.Nodes.{block, idle}

-- One edge, between the first and the last of three transactions.
abbrev one_edge : Matrix
one_edge = (0 ∷ 0 ∷ 1 ∷ []) ∷ (0 ∷ 0 ∷ 0 ∷ []) ∷ (0 ∷ 0 ∷ 0 ∷ []) ∷ []

-- Component 0 goes to follower 1, component 1 to follower 2.
abbrev followers : ℕ → ℕ
followers comp_id = if comp_id == 0 then 1 else 2

two_components :
    connected_components one_edge
    ≡ record { transaction_list = 0 ∷ 2 ∷ []; assigned_follower = 0; comp_id = 0 }
      ∷ record { transaction_list = 1 ∷ []; assigned_follower = 0; comp_id = 1 }
      ∷ []
unfolding connected_components
two_components = refl

components_closed_example :
    let own = own_ids 1 (set_followers followers (connected_components one_edge)) in
    is_in own 0 ≡ is_in own 2
components_closed_example =
    components_closed one_edge followers 1 0 2 (omega arith) (omega arith) (inl (omega arith))

node_starts_example :
    let table = leader_table own_address (0 ∷ []) block 1 clean followers in
    let s' =
      extract_components (some table) 1 (extract_block own_address (0 ∷ []) (some block) idle) in
    let first = start 3 (edges own_address (0 ∷ []) block 1 clean) (is_in (own_ids 1 table)) in
    ((i : ℕ) → i < 3 → get_or s'.dag.in_degree i (negsuc 0) ≡ first.in_degree i)
    × (s'.dag.completed_txns ≡ pos first.completed)
node_starts_example =
    node_starts own_address block (0 ∷ []) 1 clean refl followers 1 (0 ∷ []) idle refl refl

abbrev two_addresses : List Text
two_addresses = bytes "a" ∷ bytes "b" ∷ []

-- Two transactions on different addresses, both on node 2. Thread 0 takes the second in its first
-- loop, and thread 1 the first in its second loop.
node_side_by_side :
    (s : Threads) × (r : Reach 2
      (edges own_address (0 ∷ []) two_addresses 1 clean)
      (is_in (own_ids 2 (leader_table own_address (0 ∷ []) two_addresses 1 clean (λ c. 2))))
      0
      s)
    × IsFresh 2 (edges own_address (0 ∷ []) two_addresses 1 clean) r
    × (s.place 1 ≡ processing 0)
    × (s.place 0 ≡ processing 1)
unfolding start create depends text_eq connected_components is_in
node_side_by_side = (
  _,
  next
      (next
        (next
          (next
            (next
              (next
                (next
                  (next (next begin (enter 0 refl))
                    (first_load 0 1 (pos 0) refl (omega arith) refl))
                  (first_take 0 1 refl refl))
                (store 0 1 refl))
              (enter 1 refl))
            (turn_round 1 2 (pos 0) refl (omega arith)))
          (second_load 1 0 (pos 0) refl (omega arith) refl))
        (second_take 1 0 (pos 0) refl refl))
      (store 1 0 refl),
  (((((((((tt, tt), tt), tt), tt), tt), tt), tt), refl), tt),
  refl,
  refl,
)

node_runs_apart_example :
    ¬ Conflict (txn_at own_address two_addresses 0) (txn_at own_address two_addresses 1)
node_runs_apart_example =
    node_runs_apart own_address two_addresses (0 ∷ []) 1 clean refl refl (omega arith)
      (λ pid h. omega arith) (λ c. 2) 2 (0 ∷ []) 1 clean refl refl (omega arith)
      (λ pid h. omega arith) node_side_by_side.1 node_side_by_side.2 1 0 0 1 (omega arith)
      (omega arith) node_side_by_side.3 node_side_by_side.4
