-- ===== src/Parallel/Voting/Addresses.antt =====
-- The addresses that a voting transaction needs in its header.
use icsa_artifact.Base.{◌≡◌, Bool, true, false, Option, some, Option-cases, inl, inr}
use icsa_artifact.Base.Int.{ℤ, pos, ◌+ℤ◌, ◌-ℤ◌, leb_ℤ}
use icsa_artifact.Text.{Text, bytes, text_eq}
use icsa_artifact.Text.Decimal.{stoi}
use icsa_artifact.Contract.{ok, find}
use icsa_artifact.Dag.{TransactionStruct}
use icsa_artifact.Dag.Conflict.{Has}
use icsa_artifact.Parallel.Footprint.{Within}
use icsa_artifact.Parallel.Local.{
  Confined-Local, Local-insert_new, Local-load_votes, Local-store_found,
}
use icsa_artifact.Parallel.Rules.{
  Confined, Confined-ended, Confined-require, Confined-branch, Confined-caught, Within-of,
}
use icsa_artifact.Parallel.Voting.{
  register_voter, register_candidate, move_votes, transfer_vote, cast_vote, by_verb, process_txn,
}

module _ (get_value : Text → Text) (t : TransactionStruct) where
  Confined-register_voter :
      (name : Text) → Has name t.outputs → Confined find t (register_voter name)
  unfolding register_voter
  Confined-register_voter name out =
      Confined-Local t name (Local-insert_new name (bytes "1")) out
        (λ b. Confined-ended find t (ok b))

  Confined-register_candidate :
      (name : Text) → Has name t.outputs → Confined find t (register_candidate name)
  unfolding register_candidate
  Confined-register_candidate name out =
      Confined-Local t name (Local-insert_new name (bytes "0")) out
        (λ b. Confined-ended find t (ok b))

  Confined-move_votes :
      (source target : Text) (amount : ℤ)
      → Has source t.outputs
      → Has target t.outputs
      → Confined find t (move_votes get_value source target amount)
  unfolding move_votes
  Confined-move_votes source target amount out_s out_t =
      Confined-Local t source (Local-load_votes get_value source) out_s (λ source_votes.
        Confined-Local t target (Local-load_votes get_value target) out_t (λ target_votes.
          Confined-branch find t (leb_ℤ amount source_votes)
            (Confined-Local t source (Local-store_found source (source_votes -ℤ amount)) out_s
              (λ here.
                Confined-branch find t here
                  (Confined-Local t target (Local-store_found target (target_votes +ℤ amount)) out_t
                    (λ there.
                      Confined-branch find t there (Confined-ended find t (ok true))
                        (Confined-ended find t (ok false))))
                  (Confined-ended find t (ok false))))
            (Confined-ended find t (ok false))))

  Confined-transfer_vote :
      (source target amount : Text)
      → Has source t.outputs
      → Has target t.outputs
      → Confined find t (transfer_vote get_value source target amount)
  unfolding transfer_vote
  Confined-transfer_vote source target amount out_s out_t = elim (Option-cases (stoi amount)) [
    | inl e ↦ rw (e, transfer_vote) (Confined-ended find t (ok false))
    | inr (v, e) ↦ rw (e, transfer_vote) (Confined-move_votes source target v out_s out_t)
  ]

  -- The names in a payload are among the outputs of its transaction.
  pub record ListsNames (field : Text → Option Text) : Type 0 where
    pub name : (x : Text) → field (bytes "Name") ≡ some x → Has x t.outputs
    pub source : (x : Text) → field (bytes "From") ≡ some x → Has x t.outputs
    pub target : (x : Text) → field (bytes "To") ≡ some x → Has x t.outputs
    pub voter : (x : Text) → field (bytes "Voter") ≡ some x → Has x t.outputs
    pub candidate : (x : Text) → field (bytes "Candidate") ≡ some x → Has x t.outputs

  Confined-by_verb :
      (field : Text → Option Text) → ListsNames field → Confined find t (by_verb get_value field)
  unfolding by_verb cast_vote
  Confined-by_verb field lists = Confined-require find t _ (λ verb e.
      Confined-branch find t (text_eq verb (bytes "registerVoter"))
        (Confined-require find t _ (λ name at. Confined-register_voter name (lists.name name at)))
        (Confined-branch find t (text_eq verb (bytes "registerCandidate"))
          (Confined-require find t _
            (λ name at. Confined-register_candidate name (lists.name name at)))
          (Confined-branch find t (text_eq verb (bytes "transferVote"))
            (Confined-require find t _ (λ source at_s. Confined-require find t _ (λ target at_t.
              Confined-require find t _ (λ amount at_a.
                Confined-transfer_vote source target amount (lists.source source at_s)
                  (lists.target target at_t)))))
            (Confined-branch find t (text_eq verb (bytes "castVote"))
              (Confined-require find t _ (λ voter at_v. Confined-require find t _ (λ candidate at_c.
                Confined-move_votes voter candidate (pos 1) (lists.voter voter at_v)
                  (lists.candidate candidate at_c))))
              (Confined-ended find t (ok false))))))

-- If the names in the payload of a voting transaction are among the outputs in its header, every
-- access of `ProcessTxn` to the map changes the entries of outputs alone, and what it does next
-- depends on the entries under the addresses of the header alone.
pub voting-Within :
    (get_value : Text → Text) (parse_header : Text → Bool)
    (parse_payload : Text → Option (Text → Option Text)) (header payload : Text)
    (t : TransactionStruct)
    → ((field : Text → Option Text)
        → parse_payload payload ≡ some field
        → ListsNames get_value t field)
    → Within find t (process_txn get_value parse_header parse_payload header payload)
unfolding process_txn
voting-Within get_value parse_header parse_payload header payload t lists = Within-of find t (
    Confined-branch find t (parse_header header)
      (Confined-caught find t
        (Confined-require find t _ (λ field e. Confined-by_verb get_value t field (lists field e))))
      (Confined-ended find t (ok false)))
