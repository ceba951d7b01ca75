-- ===== src/Tests/Registered.antt =====
-- The parallel node on a block of two registrations, up to the global state.
use icsa_artifact.Base.{
  ℕ, zero, suc, ◌+◌, ◌≡◌, refl, ◌∙◌, ap, true, Option, none, some, List, [], ◌∷◌, arith,
  if◌then◌else◌,
}
use mathlib.Core.List.{Permᴰ}
use mathlib.Core.List.Permᴰ
use icsa_artifact.Base.Int.{◌+ℤ◌, ◌-ℤ◌}
use icsa_artifact.Text.{Text, bytes, text_eq}
use icsa_artifact.Contract.{Map, ok, find, put, ◌>>=◌, return}
use icsa_artifact.Dag.{
  past_row, first_row, extract_all, extract_transaction, depends, meets, contains,
}
use icsa_artifact.Dag.Conflict.{first}
use icsa_artifact.Dag.Create.{txn_at}
use icsa_artifact.GlobalState.{get_value}
use icsa_artifact.GlobalState.Flush.{expected, insert_into, update_hashes}
use icsa_artifact.Serial.Run.{Transaction}
use icsa_artifact.Serial.Run
use icsa_artifact.Serial.Order.{in_order}
use icsa_artifact.Voting.{insert_new}
use icsa_artifact.Workers.{start, claim, count, skip, stop}
use icsa_artifact.Parallel.{
  Call, ended, Processors, call_at, process_txn, require, State, Runs, begin_calls, begin, next,
  process, answer, other,
}
use icsa_artifact.Parallel.Voting
use icsa_artifact.Parallel.Voting.Addresses.{ListsNames, voting-Within}
use icsa_artifact.Parallel.Equal.{alone, all_of}
use icsa_artifact.Parallel.Block.{edges, headers_of, unnamed}
use icsa_artifact.Parallel.Footprint.{Within}
use icsa_artifact.Parallel.Graph.{create, run_threads, dependency_matrix, fill_rows, fill_row}
use icsa_artifact.Parallel.Schedule.{conclude, schedul_txns-stores}
use icsa_artifact.Parallel.Settled.{CanGo}
use icsa_artifact.Tests.Blocks.{own_address, clean}
use icsa_artifact.Tests.Contracts.{stored}
use icsa_artifact.Tests.Interleaved.{AtEnd, no_step}
use icsa_artifact.Tests.States.{list_db, digits, OneByte, digits-Digest, digits-Apart}

-- A payload that is read as the registration of the voter of that name.
abbrev a_registration : Text → Option (Text → Option Text)
a_registration payload = some (λ key.
    if text_eq key (bytes "Verb")
    then some (bytes "registerVoter")
    else if text_eq key (bytes "Name")
    then some payload
    else none)

abbrev voters : Processors
voters = record {
  wallet_pro = λ t. ended (ok true);
  e_comm_pro = λ t. ended (ok true);
  vote_pro = λ t. Voting.process_txn stored (λ h. true) a_registration t.header t.payload;
  nft_pro = λ t. ended (ok true);
}

abbrev registrations : List (Text × Transaction)
registrations =
    (bytes "voting", record { header = bytes "a"; payload = bytes "a" })
    ∷ (bytes "voting", record { header = bytes "b"; payload = bytes "b" })
    ∷ []

abbrev voting_family : Text → Option Text
voting_family header = some (bytes "voting")

abbrev no_edges : ℕ → ℕ → ℕ
no_edges = edges own_address (1 ∷ 0 ∷ []) (headers_of (unnamed registrations)) 2 clean

abbrev registration_calls : ℕ → Call
registration_calls = call_at voters voting_family (unnamed registrations)

-- Both are taken, and the second is in the map first.
registered : (s : State) × Runs 2 no_edges all_of registration_calls [] s
unfolding start ◌-ℤ◌ ◌+ℤ◌ begin_calls call_at process_txn Voting.process_txn Voting.by_verb
    Voting.register_voter require create run_threads dependency_matrix fill_rows fill_row past_row
    first_row extract_all extract_transaction depends meets contains insert_new find put text_eq
registered = (
  _,
  next
      (next
        (next
          (next
            (next
              (next
                (next
                  (next
                    (next
                      (next (next begin (other (claim 0 (omega arith) refl) tt))
                        (other (claim 1 (omega arith) refl) tt))
                      (process 1 _ _ (omega arith) refl refl))
                    (process 0 _ _ (omega arith) refl refl))
                  (answer 1 true (omega arith) refl refl))
                (answer 0 true (omega arith) refl refl))
              (other (count 0 (omega arith) refl) tt))
            (other (count 1 (omega arith) refl) tt))
          (other (skip 0 1 (omega arith) refl (omega arith) (ground arith)) tt))
        (other (stop 0 2 (omega arith) refl (omega arith)) tt))
      (other (stop 1 2 (omega arith) refl (omega arith)) tt),
)

registered-AtEnd : AtEnd registered.0
unfolding registered start ◌-ℤ◌ ◌+ℤ◌ begin_calls create run_threads dependency_matrix fill_rows
    fill_row past_row first_row extract_all extract_transaction depends meets contains text_eq
registered-AtEnd = record { phases = λ i h. ground arith; degrees = λ i h. ground arith }

member : Text → Option (Text → Option Text) → Option Text
member key o = elim o [ none ↦ none | some field ↦ field key ]

named :
    (payload : Text) (k : ℕ) (field : Text → Option Text)
    → a_registration payload ≡ some field
    → ListsNames stored (extract_transaction own_address payload k) field
unfolding extract_transaction text_eq member
named payload k field e =
    let at : (key : Text) → member key (a_registration payload) ≡ field key =
      λ key. ap (member key) e in
    record {
      name = λ x h. let same = at (bytes "Name") ∙ h in first cc;
      source = λ x h. let same = at (bytes "From") ∙ h in cc;
      target = λ x h. let same = at (bytes "To") ∙ h in cc;
      voter = λ x h. let same = at (bytes "Voter") ∙ h in cc;
      candidate = λ x h. let same = at (bytes "Candidate") ∙ h in cc;
    }

confined :
    (i : ℕ)
    → Within find (txn_at own_address (headers_of (unnamed registrations)) i) (registration_calls i)
unfolding call_at process_txn text_eq extract_all
confined zero =
    voting-Within stored (λ h. true) a_registration (bytes "a") (bytes "a") _ (named (bytes "a") 0)
confined (suc zero) =
    voting-Within stored (λ h. true) a_registration (bytes "b") (bytes "b") _
      (named (bytes "b") (0 + 1))
confined (suc (suc i)) = tt

all_true : (m' : Map) × (in_order (alone voters) registrations [] ≡ (ok true, m'))
unfolding in_order ◌>>=◌ return Run.process Voting.process_txn Voting.by_verb Voting.register_voter
    require insert_new find put text_eq
all_true = (_, refl)

stuck : ¬ CanGo 2 no_edges registered.0
stuck can = no_step registered-AtEnd can.step

schedul_txns-stores_example :
    let r =
      conclude
        (insert_into list_db digits)
        (update_hashes list_db digits)
        2
        (0 ∷ 1 ∷ [])
        registered.0
        (some []) in
    (r.0 ≡ true)
    × ((db' : Map) × (r.1 ≡ some db')
        × ((j : Text)
            → OneByte j
            → get_value list_db digits j db' ≡ expected list_db digits all_true.0 j []))
unfolding registered find text_eq put insert_new begin_calls
schedul_txns-stores_example =
    schedul_txns-stores voters own_address voting_family registrations (1 ∷ 0 ∷ []) 2 clean []
      all_true.0 (omega arith) (Permᴰ.refl _) (refl, (refl, tt)) confined registered.0 registered.1
      all_true.1 stuck list_db digits OneByte digits-Digest (λ k v db. (put k v db, refl))
      digits-Apart
      ((_, refl), omega arith, omega arith, refl, ((_, refl), omega arith, omega arith, refl, tt))
      [] (0 ∷ 1 ∷ []) (Permᴰ.swap refl refl)
