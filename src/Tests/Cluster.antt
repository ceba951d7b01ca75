-- ===== src/Tests/Cluster.antt =====
-- The leader and the follower on a cluster of three members, and a block stored.
use icsa_artifact.Base.{
  ℕ, Bool, ◌%◌, ◌≡◌, refl, true, false, Option, none, some, List, [], ◌∷◌, arith, length, get_elem?,
}
use icsa_artifact.Base.Int.{ℤ, pos}
use icsa_artifact.Text.{Text, bytes, text_eq}
use icsa_artifact.Text.Decimal.{stoi}
use icsa_artifact.Text.Split.{segments}
use icsa_artifact.Contract.{Map, put}
use icsa_artifact.Leader.{
  EtcdMember, Entry, Leader, mark_healthy, is_other_node, read_health, get_active_followers,
  healthy_ids, assign_followers, monitor_turn,
}
use icsa_artifact.Commerce.{words}
use icsa_artifact.Leader.Assign.{assign_round_robin}
use icsa_artifact.Leader.Lost.{FindsFewer, monitor_moves_nothing}
use icsa_artifact.Follower.{get_largest_block_number}
use icsa_artifact.Follower.Block.{node_number, ending, saves, resets, fails}
use icsa_artifact.Blocks.{latest_key, store_block, get_block, get_latest_block_num}
use icsa_artifact.Blocks.Stored.{store_block_lem}
use icsa_artifact.Tests.States.{list_db}

-- The second of three members is down.
abbrev cluster : List EtcdMember
cluster =
    record { ip_address = bytes "http://a"; id = bytes "s0"; healthy = true }
    ∷ record { ip_address = bytes "http://b"; id = bytes "s1"; healthy = false }
    ∷ record { ip_address = bytes "http://c"; id = bytes "s2"; healthy = true }
    ∷ []

abbrev unassigned : List Entry
unassigned =
    record { transaction_list = 0 ∷ []; assigned_follower = pos 0 }
    ∷ record { transaction_list = 1 ∷ 2 ∷ []; assigned_follower = pos 0 }
    ∷ []

abbrev leading : Leader
leading = record {
  healthy_member_ids = [];
  member_list = cluster;
  table = unassigned;
  active_followers = 0;
}

assign_round_robin_example :
    (l' : Leader) × (assign_followers leading ≡ some (true, l'))
    × (length l'.table ≡ 2)
    × ((j : ℕ) (e : Entry)
        → get_elem? unassigned j ≡ some e
        → (id : ℤ) × (get_elem? (pos 0 ∷ pos 2 ∷ []) (j % 2) ≡ some id)
          × (get_elem? l'.table j ≡ some (record e { assigned_follower = id })))
unfolding stoi healthy_ids
assign_round_robin_example = assign_round_robin leading (pos 0 ∷ pos 2 ∷ []) refl refl (omega arith)

-- Three members answered before, and one answers now.
abbrev watching : Leader
watching = record leading { active_followers = 3 }

abbrev unset : Option Bool
unset = none

abbrev health : Text
health = bytes "http://c is healthy: yes"

monitor_moves_nothing_example :
    (FindsFewer (bytes "a") health watching
      → unset ≡ none
      → monitor_turn (bytes "a") health unset watching ≡ none)
    × (¬ (FindsFewer (bytes "a") health watching × (unset ≡ none))
        → (l' : Leader) × (monitor_turn (bytes "a") health unset watching ≡ some (unset, l'))
          × (l'.table ≡ unassigned))
monitor_moves_nothing_example = monitor_moves_nothing (bytes "a") health unset watching (
  (0, refl, record { member = _; at = refl; marked = refl }),
  ((0, refl, record { member = _; at = refl; marked = refl }), tt),
)

-- It does show fewer, so the turn is undefined.
fewer_now : FindsFewer (bytes "a") health watching
unfolding get_active_followers read_health is_other_node mark_healthy words text_eq
fewer_now = (omega arith, omega arith)

abbrev data_pairs : List (Text × Text)
data_pairs = (bytes "ann", bytes "30") ∷ (bytes "bob", bytes "a=5") ∷ []

store_block_example :
    let r = store_block list_db (bytes "B1") (bytes "data") [] in
    ((db' : Map)
      → list_db.put (bytes "B1") (bytes "data") (put latest_key (bytes "B1") []) ≡ some db'
      → (r.0 ≡ true)
        × (get_block list_db (bytes "B1") r.1 ≡ bytes "data")
        × (get_latest_block_num list_db r.1 ≡ bytes "B1"))
    × (list_db.put (bytes "B1") (bytes "data") (put latest_key (bytes "B1") []) ≡ none
        → (r.0 ≡ false)
          × (get_block list_db (bytes "B1") r.1 ≡ get_block list_db (bytes "B1") [])
          × (get_latest_block_num list_db r.1 ≡ bytes "B1"))
store_block_example =
    store_block_lem list_db (bytes "B1") (bytes "data") [] (put latest_key (bytes "B1") []) refl
      (λ e. ground (arith, e))

largest_run :
    get_largest_block_number (bytes "s0/40/1/DAG" ∷ bytes "s0/40/12/run" ∷ bytes "s0/40" ∷ [])
    ≡ pos 12
unfolding stoi get_largest_block_number segments
largest_run = refl

node_number_run :
    (node_number (bytes "s2") ≡ some 2)
    × (node_number (bytes "s-2") ≡ none)
    × (ending true (bytes "1") ≡ saves)
    × (ending true (bytes "0") ≡ resets)
    × (ending false (bytes "1") ≡ fails)
unfolding stoi ending text_eq
node_number_run = (refl, refl, refl, refl, refl)
