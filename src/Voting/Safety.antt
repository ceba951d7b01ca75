-- ===== src/Voting/Safety.antt =====
-- `ProcessTxn` of the voting contract: its exceptions, and what a refused transaction leaves.
use icsa_artifact.Base.{
  ◌≡◌, refl, ◌≢◌, Bool, false, Option, arith, Bool-cases, Option-cases, inl, inr,
}
use icsa_artifact.Text.{Text, bytes, text_eq}
use icsa_artifact.Base.Int.{ℤ, pos}
use icsa_artifact.Contract.{Map, find, ok, threw, M, attempt, ◌>>=◌}
use icsa_artifact.Contract.Number.{value}
use icsa_artifact.Contract.Atomic.{
  Same, Unchanged, Atomic, run-Atomic, atomic, Quiet-load, Quiet-attempt, Atomic-bind,
  Atomic-branch, Atomic-return, Sure-return, Sure-write, Atomic-Sure, Sure-int,
  catch_false-Unchanged, catch_false-ne-threw,
}
use icsa_artifact.Voting.{
  register_voter, register_candidate, insert_new, move_votes, transfer_vote, cast_vote, by_verb,
  process_txn,
}

module _ (get_value : Text → Text) where
  insert_new-Atomic : (name v : Text) → Atomic (value get_value) (insert_new name v)
  unfolding insert_new
  insert_new-Atomic name v = atomic λ m m' s. elim (Option-cases (find name m')) [
    | inl fresh ↦ rw (fresh, insert_new) tt
    | inr (w, taken) ↦ rw (taken, insert_new) s
  ]

  register_voter-Atomic : (name : Text) → Atomic (value get_value) (register_voter name)
  unfolding register_voter
  register_voter-Atomic name = insert_new-Atomic name (bytes "10000")

  register_candidate-Atomic : (name : Text) → Atomic (value get_value) (register_candidate name)
  unfolding register_candidate
  register_candidate-Atomic name = insert_new-Atomic name (bytes "0")

  move_votes-Atomic :
      (a b : Text) (x y n : ℤ) → Atomic (value get_value) (move_votes get_value a b x y n)
  unfolding move_votes
  move_votes-Atomic a b x y n = Atomic-Sure (value get_value) (
      Sure-int (value get_value) _ λ x'. Sure-write (value get_value) _ _ (
        Sure-int (value get_value) _
          λ y'. Sure-write (value get_value) _ _ (Sure-return (value get_value))))

  transfer_vote-Atomic : (a b v : Text) → Atomic (value get_value) (transfer_vote get_value a b v)
  unfolding transfer_vote
  transfer_vote-Atomic a b v =
      Atomic-bind (value get_value) (Quiet-attempt (value get_value) _) λ n.
        Atomic-bind (value get_value) (Quiet-load get_value a) λ x.
          Atomic-bind (value get_value) (Quiet-load get_value b) λ y.
            Atomic-branch (value get_value) _ (move_votes-Atomic a b x y n)
              (Atomic-return (value get_value) false)

  cast_vote-Atomic : (a b : Text) → Atomic (value get_value) (cast_vote get_value a b)
  unfolding cast_vote
  cast_vote-Atomic a b = Atomic-bind (value get_value) (Quiet-load get_value a) λ x.
      Atomic-bind (value get_value) (Quiet-load get_value b) λ y.
        Atomic-branch (value get_value) _ (move_votes-Atomic a b x y (pos 1))
          (Atomic-return (value get_value) false)

  by_verb-Atomic : (field : Text → Option Text) → Atomic (value get_value) (by_verb get_value field)
  unfolding by_verb
  by_verb-Atomic field = try (field (bytes "Verb")) λ verb.
      Atomic-branch (value get_value) (text_eq verb (bytes "registerVoter"))
        (try (field (bytes "Name")) λ a. register_voter-Atomic a)
        (Atomic-branch (value get_value) (text_eq verb (bytes "registerCandidate"))
          (try (field (bytes "Name")) λ a. register_candidate-Atomic a)
          (Atomic-branch (value get_value) (text_eq verb (bytes "transferVote"))
            (try (field (bytes "From")) λ a.
              try (field (bytes "To"))
                λ b. try (field (bytes "Count")) λ v. transfer_vote-Atomic a b v)
            (Atomic-branch (value get_value) (text_eq verb (bytes "castVote"))
              (try (field (bytes "Voter"))
                λ a. try (field (bytes "Candidate")) λ b. cast_vote-Atomic a b)
              (Atomic-return (value get_value) false))))
    where
      try :
          (o : Option Text) {f : Text → M Bool}
          → ((a : Text) → Atomic (value get_value) (f a))
          → Atomic (value get_value) (attempt o >>= f)
      try o h = Atomic-bind (value get_value) (Quiet-attempt (value get_value) o) h

-- No exception leaves `process_txn`, and a voting transaction that answers `false` (header or
-- payload not parsed, a member missing, a number that is no `int`, an unknown verb, too few
-- votes, a name that is registered already) leaves every count as it was.
pub voting_txn_atomic :
    (get_value : Text → Text) (parse_header : Text → Bool)
    (parse_payload : Text → Option (Text → Option Text)) (header payload : Text) (m : Map)
    → let r = process_txn get_value parse_header parse_payload header payload m in
      (r.0 ≢ threw) × (r.0 ≡ ok false → (c : Text) → value get_value c r.1 ≡ value get_value c m)
unfolding process_txn
voting_txn_atomic get_value parse_header parse_payload header payload m =
    elim (Bool-cases (parse_header header)) [
      | inl parsed ↦
          rw (parsed, process_txn)
            (
              catch_false-ne-threw _,
              catch_false-Unchanged (value get_value) m _ (handled m m (λ c. refl)),
            )
      | inr bad ↦ rw (bad, process_txn) (ground arith, λ e c. refl)
    ]
  where
    handled :
        (m m' : Map)
        → Same (value get_value) m m'
        → Unchanged (value get_value) m ((attempt (parse_payload payload) >>= by_verb get_value) m')
    handled = run-Atomic (value get_value) (
        Atomic-bind (value get_value) (Quiet-attempt (value get_value) _)
          (by_verb-Atomic get_value))
