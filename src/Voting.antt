-- ===== src/Voting.antt =====
-- BlockRAFT-distributed_node/smartContracts/voting/votingProcessor.h: vote counts in `int`, kept as
-- decimal text in the shared map.
pub mod Votes
pub mod Safety
use icsa_artifact.Base.{Bool, true, false, Option, none, some, if◌then◌else◌}
use icsa_artifact.Base.Int.{ℤ, pos, ◌+ℤ◌, ◌-ℤ◌, leb_ℤ}
use icsa_artifact.Text.{Text, bytes, text_eq}
use icsa_artifact.Text.Decimal.{stoi, to_string}
use icsa_artifact.Contract.{
  Map, ok, M, ◌>>=◌, ◌>>◌, return, attempt, int, write, catch_false, load_int, find, put,
}

-- `myMap.insert(acc, name)` with a first value: refused where the name is in the map.
unfoldable pub insert_new : Text → Text → M Bool
insert_new name v m = elim (find name m) [ none ↦ (ok true, put name v m) | some _ ↦ (ok false, m) ]

unfoldable pub register_voter : Text → M Bool
unfolding insert_new
register_voter name = insert_new name (bytes "10000")

unfoldable pub register_candidate : Text → M Bool
unfolding insert_new
register_candidate name = insert_new name (bytes "0")

module _ (get_value : Text → Text) where
  -- `getOrLoadVoteCount`
  abbrev pub get_or_load_vote_count : Text → M ℤ
  get_or_load_vote_count = load_int get_value

  -- Both counts written: `source` loses what `target` gains.
  move_votes : Text → Text → ℤ → ℤ → ℤ → M Bool
  move_votes source target source_votes target_votes amount = do
    source_votes' ← int (source_votes -ℤ amount)
    write source (to_string source_votes')
    target_votes' ← int (target_votes +ℤ amount)
    write target (to_string target_votes')
    return true

  unfoldable pub transfer_vote : Text → Text → Text → M Bool
  unfolding move_votes
  transfer_vote source target value = do
    amount ← attempt (stoi value)
    source_votes ← get_or_load_vote_count source
    target_votes ← get_or_load_vote_count target
    if leb_ℤ amount source_votes
        then move_votes source target source_votes target_votes amount
        else return false

  unfoldable pub cast_vote : Text → Text → M Bool
  unfolding move_votes
  cast_vote voter candidate = do
    voter_votes ← get_or_load_vote_count voter
    candidate_votes ← get_or_load_vote_count candidate
    if leb_ℤ (pos 1) voter_votes
        then move_votes voter candidate voter_votes candidate_votes (pos 1)
        else return false

  -- The calls by the payload's verb; `field` gives the payload's string members.
  by_verb : (Text → Option Text) → M Bool
  by_verb field = do
    verb ← attempt (field (bytes "Verb"))
    if text_eq verb (bytes "registerVoter")
        then (do name ← attempt (field (bytes "Name")); register_voter name)
        else if text_eq verb (bytes "registerCandidate")
        then (do name ← attempt (field (bytes "Name")); register_candidate name)
        else if text_eq verb (bytes "transferVote")
        then (do
          source ← attempt (field (bytes "From"))
          target ← attempt (field (bytes "To"))
          count ← attempt (field (bytes "Count"))
          transfer_vote source target count)
        else if text_eq verb (bytes "castVote")
        then (do
          voter ← attempt (field (bytes "Voter"))
          candidate ← attempt (field (bytes "Candidate"))
          cast_vote voter candidate)
        else return false

  -- `parse_header` and `parse_payload` are the protobuf and JSON libraries, as in the wallet.
  pub process_txn : (Text → Bool) → (Text → Option (Text → Option Text)) → Text → Text → M Bool
  unfolding by_verb
  process_txn parse_header parse_payload header payload m =
      if parse_header header
      then catch_false ((attempt (parse_payload payload) >>= by_verb) m)
      else (ok false, m)
