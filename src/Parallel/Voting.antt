-- ===== src/Parallel/Voting.antt =====
-- singleNode-parallel/smartContracts/voting/votingProcessor.h: vote counts in `int`, kept as decimal
-- text in the map that the threads share. It differs from the distributed node's contract: texts that
-- are no numbers count as 0, a voter starts with one vote, and a count is written only where there is
-- one.
pub mod Addresses
use icsa_artifact.Base.{Bool, true, false, Option, none, some, if◌then◌else◌}
use icsa_artifact.Base.Int.{ℤ, pos, ◌+ℤ◌, ◌-ℤ◌, leb_ℤ, is_int32}
use icsa_artifact.Text.{Text, bytes, text_eq}
use icsa_artifact.Text.Decimal.{stoi, to_string}
use icsa_artifact.Contract.{M, ok, undefined, find, put, number_of}
use icsa_artifact.Voting.{insert_new}
use icsa_artifact.Parallel.{Call, ended, perform, require, caught}

-- `catch (...) { return 0; }`
abbrev pub or_zero : Option ℤ → ℤ
or_zero none = pos 0
or_zero (some v) = v

-- `if (myMap.find(acc, name)) acc->second = std::to_string(count); else return false;`
unfoldable pub store_found : Text → ℤ → M Bool
store_found name count m = elim (find name m) [
  | none ↦ (ok false, m)
  | some _ ↦ if is_int32 count then (ok true, put name (to_string count) m) else (undefined, m)
]

-- What follows unless the answer was `false`.
abbrev pub unless_false : Call → Bool → Call
unless_false rest answer = if answer then rest else ended (ok false)

-- `registerVoter`
unfoldable pub register_voter : Text → Call
register_voter name = perform (insert_new name (bytes "1")) (λ fresh. ended (ok fresh))

-- `registerCandidate`
pub register_candidate : Text → Call
register_candidate name = perform (insert_new name (bytes "0")) (λ fresh. ended (ok fresh))

module _ (get_value : Text → Text) where
  -- `getOrLoadVoteCount`
  unfoldable pub load_votes : Text → M ℤ
  load_votes name m = elim (find name m) [
    | some text ↦ (ok (or_zero (stoi text)), m)
    | none ↦
        let votes = or_zero (number_of (get_value name)) in (ok votes, put name (to_string votes) m)
  ]

  -- Both counts, where the first is large enough.
  pub move_votes : Text → Text → ℤ → Call
  move_votes source target amount = perform (load_votes source) (λ source_votes.
      perform (load_votes target) (λ target_votes.
        if leb_ℤ amount source_votes
        then perform (store_found source (source_votes -ℤ amount)) (
            unless_false (
              perform (store_found target (target_votes +ℤ amount))
                (unless_false (ended (ok true)))))
        else ended (ok false)))

  -- `transferVote`
  pub transfer_vote : Text → Text → Text → Call
  unfolding move_votes
  transfer_vote source target value = elim (stoi value) [
    | none ↦ ended (ok false)
    | some amount ↦ move_votes source target amount
  ]

  -- `castVote`
  pub cast_vote : Text → Text → Call
  unfolding move_votes
  cast_vote voter candidate = move_votes voter candidate (pos 1)

  -- The calls by the payload's verb; `field` gives the payload's string members.
  unfoldable pub by_verb : (Text → Option Text) → Call
  unfolding register_voter register_candidate transfer_vote cast_vote
  by_verb field = require (field (bytes "Verb")) (λ verb.
      if text_eq verb (bytes "registerVoter")
      then require (field (bytes "Name")) (λ name. register_voter name)
      else if text_eq verb (bytes "registerCandidate")
      then require (field (bytes "Name")) (λ name. register_candidate name)
      else if text_eq verb (bytes "transferVote")
      then require (field (bytes "From")) (λ source.
        require (field (bytes "To"))
          (λ target. require (field (bytes "Count")) (λ value. transfer_vote source target value)))
      else if text_eq verb (bytes "castVote")
      then require (field (bytes "Voter"))
          (λ voter. require (field (bytes "Candidate")) (λ candidate. cast_vote voter candidate))
      else ended (ok false))

  -- `ProcessTxn`; `parse_header` and `parse_payload` are the protobuf and JSON libraries.
  unfoldable pub process_txn :
      (Text → Bool) → (Text → Option (Text → Option Text)) → Text → Text → Call
  unfolding by_verb
  process_txn parse_header parse_payload header payload =
      if parse_header header
      then caught (require (parse_payload payload) by_verb)
      else ended (ok false)
