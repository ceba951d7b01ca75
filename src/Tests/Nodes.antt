-- ===== src/Tests/Nodes.antt =====
-- A node that takes its share of a block of three transactions.
use icsa_artifact.Base.{ℕ, ◌<◌, ◌≡◌, refl, false, some, List, [], ◌∷◌, arith, get_or}
use icsa_artifact.Base.Int.{pos, negsuc, ◌-ℤ◌}
use icsa_artifact.Text.{Text, bytes, text_eq}
use icsa_artifact.Dag.{createfollower, depends}
use icsa_artifact.Workers.{start}
use icsa_artifact.Workers.Block.{edges}
use icsa_artifact.Scheduler.{Component, Scheduler, is_in, extract_block, extract_components}
use icsa_artifact.Scheduler.Share.{own_ids}
use icsa_artifact.Scheduler.Start.{components_start}
use icsa_artifact.Tests.Blocks.{own_address, clean}

abbrev pub block : List Text
block = bytes "a" ∷ bytes "b" ∷ bytes "a" ∷ []

-- The leader gives transactions 0 and 2 to follower 1, and transaction 1 to follower 2.
abbrev table : List Component
table =
    record { transaction_list = 0 ∷ 2 ∷ []; assigned_follower = 1; comp_id = 0 }
    ∷ record { transaction_list = 1 ∷ []; assigned_follower = 2; comp_id = 1 }
    ∷ []

abbrev pub idle : Scheduler
idle = record {
  dag = clean;
  processed_components = [];
  thread_count = 1;
  transactions = [];
  update_flag = false;
}

components_start_example :
    let s' =
      extract_components (some table) 1 (extract_block own_address (0 ∷ []) (some block) idle) in
    let first = start 3 (edges own_address (0 ∷ []) block 1 clean) (is_in (own_ids 1 table)) in
    ((i : ℕ) → i < 3 → get_or s'.dag.in_degree i (negsuc 0) ≡ first.in_degree i)
    × (s'.dag.completed_txns ≡ pos first.completed)
unfolding is_in
components_start_example =
    components_start own_address (0 ∷ []) block table 1 idle refl (refl, (refl, tt))
      (omega arith, refl, (omega arith, refl, tt))

follower_one :
    (extract_components
      (some table)
      1
      (extract_block own_address (0 ∷ []) (some block) idle)).dag.in_degree
    ≡ pos 0 ∷ negsuc 0 ∷ pos 1 ∷ []
unfolding extract_components extract_block is_in createfollower depends text_eq ◌-ℤ◌
follower_one = refl
