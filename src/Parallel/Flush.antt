-- ===== src/Parallel/Flush.antt =====
-- singleNode-parallel/scheduler/scheduler.h, `flushMapToState`: threads that write the entries of the
-- map to the global state, a range each.
pub mod Pieces
pub mod Stores
use icsa_artifact.Base.{
  ℕ, zero, suc, ◌+◌, ◌-◌, ◌*◌, ◌/◌, min, Option, none, some, List, [], ◌∷◌, length, get_elem?,
}
use icsa_artifact.Text.{Text}
use icsa_artifact.Contract.{Map}
use icsa_artifact.Serial.Run.{update_all}

-- `chunkSize`, and the range of thread `t`; `entries` is of this length.
abbrev pub chunk_size : (size threads : ℕ) → ℕ
chunk_size size threads = (size + threads - 1) / threads

abbrev pub first_entry : (size threads t : ℕ) → ℕ
first_entry size threads t = t * chunk_size size threads

abbrev pub past_entry : (size threads t : ℕ) → ℕ
past_entry size threads t = min (first_entry size threads t + chunk_size size threads) size

-- `insert` and `updateParentHashes` are those of the global state.
module _ {S : Type 0} (insert : Text → Text → S → S) (update_parent_hashes : Text → S → S)
    (entries : Map) where
  -- The loop of a thread: indices `i`, `i + 1`, …, `left` of them.
  unfoldable pub insert_range : (i left : ℕ) → S → S
  insert_range i zero state = state
  insert_range i (suc left) state = elim (get_elem? entries i) [
    | none ↦ state
    | some (key, value) ↦ insert_range (suc i) left (insert key value state)
  ]

  -- The threads, one after the other in the order of the list.
  unfoldable pub run_threads : (threads : ℕ) → List ℕ → S → S
  unfolding insert_range
  run_threads threads [] state = state
  run_threads threads (t ∷ ts) state = run_threads threads ts (
      insert_range (first_entry (length entries) threads t)
        (past_entry (length entries) threads t - first_entry (length entries) threads t) state)

  -- `flushMapToState`
  unfoldable pub flush_map_to_state : (threads : ℕ) → List ℕ → S → S
  unfolding run_threads
  flush_map_to_state threads order state =
      update_all insert update_parent_hashes entries (run_threads threads order state)
