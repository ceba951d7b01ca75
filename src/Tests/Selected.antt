-- ===== src/Tests/Selected.antt =====
-- `selectTxn` and `complete` of the parallel node on two transactions with an edge, and a vote.
use icsa_artifact.Base.{
  ℕ, zero, suc, ◌<◌, ◌≡◌, refl, true, false, Option, none, some, List, [], ◌∷◌, arith, ◌==◌, ◌&&◌,
  if◌then◌else◌, ◌∙◌, ap, get_or,
}
use icsa_artifact.Base.Int.{pos, negsuc}
use icsa_artifact.Text.{Text, bytes, text_eq}
use icsa_artifact.Contract.{ok, find}
use icsa_artifact.Dag.{TransactionStruct, DagModule, entry}
use icsa_artifact.Voting.{insert_new}
use icsa_artifact.Dag.Conflict.{first, later}
use icsa_artifact.Workers.{System, running, waiting, done, start}
use icsa_artifact.Parallel.{run}
use icsa_artifact.Parallel.Footprint.{Within}
use icsa_artifact.Parallel.Graph.{select_txn, complete}
use icsa_artifact.Parallel.Refine.{Steps, Shows, Selects, select_txn-Selects, complete-Steps}
use icsa_artifact.Parallel.Voting
use icsa_artifact.Parallel.Voting.Addresses.{ListsNames, voting-Within}
use icsa_artifact.Tests.Blocks.{clean, own_address}
use icsa_artifact.Parallel.Ready
use icsa_artifact.Parallel.Equal.{all_of}
use icsa_artifact.Serial.Run.{Transaction}
use mathlib.Core.List.Perm
use icsa_artifact.Tests.Contracts.{stored}

abbrev edge_01 : ℕ → ℕ → ℕ
edge_01 a b = if a == 0 && b == 1 then 1 else 0

abbrev two_txns : DagModule
two_txns = record clean {
  adjacency_matrix = (0 ∷ 1 ∷ []) ∷ (0 ∷ 0 ∷ []) ∷ [];
  in_degree = pos 0 ∷ pos 1 ∷ [];
  total_txns = 2;
}

abbrev before : System
before = record {
  in_degree = λ i. if i == 0 then pos 0 else pos 1;
  completed = 0;
  phase = λ i. waiting;
}

edges_01 : (a b : ℕ) → entry two_txns.adjacency_matrix a b ≡ edge_01 a b
edges_01 zero zero = refl
edges_01 zero (suc zero) = refl
edges_01 zero (suc (suc b)) = ground arith
edges_01 (suc zero) zero = refl
edges_01 (suc zero) (suc zero) = refl
edges_01 (suc zero) (suc (suc b)) = ground arith
edges_01 (suc (suc a)) b = ground arith

degrees_01 : (i : ℕ) → i < 2 → get_or two_txns.in_degree i (pos 0) ≡ before.in_degree i
degrees_01 zero h = refl
degrees_01 (suc zero) h = refl
degrees_01 (suc (suc i)) h = absurd (omega arith)

shown : Shows 2 edge_01 two_txns before
shown = record {
  total = refl;
  edges = edges_01;
  degrees = record { size = refl; at = degrees_01 };
  completed = refl;
}

select_txn-Selects_example : Selects 2 edge_01 before (select_txn two_txns)
select_txn-Selects_example = select_txn-Selects 2 edge_01 two_txns before shown

-- The first one is taken.
abbrev taken_txns : DagModule
taken_txns = record two_txns { in_degree = negsuc 0 ∷ pos 1 ∷ []; last_txn = 0 }

abbrev taken : System
taken = record {
  in_degree = λ i. if i == 0 then negsuc 0 else pos 1;
  completed = 0;
  phase = λ i. if i == 0 then running else waiting;
}

taken_01 : (i : ℕ) → i < 2 → get_or taken_txns.in_degree i (pos 0) ≡ taken.in_degree i
taken_01 zero h = refl
taken_01 (suc zero) h = refl
taken_01 (suc (suc i)) h = absurd (omega arith)

shown_taken : Shows 2 edge_01 taken_txns taken
shown_taken = record {
  total = refl;
  edges = edges_01;
  degrees = record { size = refl; at = taken_01 };
  completed = refl;
}

complete-Steps_example :
    (t : System) × Steps 2 edge_01 taken t
    × (t.phase 0 ≡ done)
    × Shows 2 edge_01 (complete (pos 0) taken_txns) t
complete-Steps_example = complete-Steps 2 edge_01 taken_txns taken 0 shown_taken (omega arith) refl

-- A payload that is read as Ann's vote for Bob.
abbrev a_vote : Text → Option (Text → Option Text)
a_vote payload = some (λ key.
    if text_eq key (bytes "Verb")
    then some (bytes "castVote")
    else if text_eq key (bytes "Voter")
    then some (bytes "ann")
    else if text_eq key (bytes "Candidate")
    then some (bytes "bob")
    else none)

abbrev ann_and_bob : TransactionStruct
ann_and_bob = record {
  txn_no = 0;
  inputscount = some 0;
  inputs = [];
  outputcount = some 2;
  outputs = bytes "ann" ∷ bytes "bob" ∷ [];
  comp_id = negsuc 0;
}

member : Text → Option (Text → Option Text) → Option Text
member key o = elim o [ none ↦ none | some field ↦ field key ]

names : (field : Text → Option Text) → a_vote [] ≡ some field → ListsNames stored ann_and_bob field
unfolding text_eq member
names field e =
    let at : (key : Text) → member key (a_vote []) ≡ field key = λ key. ap (member key) e in
    record {
      name = λ x h. let same = at (bytes "Name") ∙ h in cc;
      source = λ x h. let same = at (bytes "From") ∙ h in cc;
      target = λ x h. let same = at (bytes "To") ∙ h in cc;
      voter = λ x h. let same = at (bytes "Voter") ∙ h in first cc;
      candidate = λ x h. let same = at (bytes "Candidate") ∙ h in later (first cc);
    }

voting-Within_example : Within find ann_and_bob (Voting.process_txn stored (λ h. true) a_vote [] [])
voting-Within_example = voting-Within stored (λ h. true) a_vote [] [] ann_and_bob names

-- A second registration is refused.
registered_twice :
    run (Voting.register_voter (bytes "ann")) ((bytes "ann", bytes "1") ∷ [])
    ≡ (ok false, (bytes "ann", bytes "1") ∷ [])
unfolding Voting.register_voter insert_new find text_eq
registered_twice = refl

-- A scheduler in the middle of a block that was refused.
abbrev used : Ready.Scheduler
used = record {
  dag = taken_txns;
  transactions = record { header = bytes "ann"; payload = [] } ∷ [];
  my_map = (bytes "ann", bytes "1") ∷ [];
  flag = false;
}

abbrev new_block : List Transaction
new_block =
    record { header = bytes "a"; payload = [] } ∷ record { header = bytes "a"; payload = [] } ∷ []

clear-ready_example :
    let s' = Ready.extract_block own_address (1 ∷ 0 ∷ []) 2 new_block (Ready.clear used) in
    Shows 2 (entry s'.dag.adjacency_matrix) s'.dag (start 2 (entry s'.dag.adjacency_matrix) all_of)
    × (s'.transactions ≡ new_block)
    × (s'.my_map ≡ [])
    × (s'.flag ≡ true)
clear-ready_example =
    Ready.clear-ready own_address (1 ∷ 0 ∷ []) 2 new_block used (omega arith) (Perm.refl _)
