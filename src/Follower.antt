-- ===== src/Follower.antt =====
-- BlockRAFT-distributed_node/follower/follower.h: the number of the latest block of a term, and the
-- data of the other nodes that a follower takes over.
pub mod Largest
pub mod Block
use icsa_artifact.Base.{
  ℕ, ◌==◌, Bool, true, false, Option, none, some, List, [], ◌∷◌, ◌++◌, get_elem?, if◌then◌else◌,
}
use icsa_artifact.Base.Int.{ℤ, pos, negsuc, ltb_ℤ}
use icsa_artifact.Text.{Text, bytes}
use icsa_artifact.Text.Decimal.{stoi, to_string}
use icsa_artifact.Text.Split.{segments}

-- The number in the third piece of a path such as `s0/40/1/DAG`; `none` if there is no third piece,
-- or if it is no number, where the exception is caught.
unfoldable pub block_number : Text → Option ℤ
block_number path = elim (get_elem? (segments b'/' path) 2) [
  | none ↦ none
  | some token ↦ stoi token
]

-- `std::max`
abbrev pub max_ℤ : ℤ → ℤ → ℤ
max_ℤ a b = if ltb_ℤ a b then b else a

-- The loop of `getLargestBlockNumber`.
unfoldable pub largest_from : ℤ → List Text → ℤ
unfolding block_number
largest_from largest [] = largest
largest_from largest (path ∷ paths) = elim (block_number path) [
  | none ↦ largest_from largest paths
  | some n ↦ largest_from (max_ℤ largest n) paths
]

-- `getLargestBlockNumber`
unfoldable pub get_largest_block_number : List Text → ℤ
unfolding largest_from
get_largest_block_number paths = largest_from (negsuc 0) paths

-- The path of a block of a leader's term in etcd.
abbrev pub block_path : Text → Text → ℤ → Text
block_path leader_id term_no block_num =
    leader_id ++ (bytes "/" ++ (term_no ++ (bytes "/" ++ to_string block_num)))

-- `getBlockStatus`: what etcd has under the path of the block and `/run`; an error is the empty text.
unfoldable pub get_block_status : (Text → Option Text) → Text → Text → ℤ → Text
get_block_status etcd leader_id term_no block_num =
    elim (etcd (block_path leader_id term_no block_num ++ bytes "/run")) [
      | none ↦ []
      | some status ↦ status
    ]
