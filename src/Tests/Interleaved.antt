-- ===== src/Tests/Interleaved.antt =====
-- The parallel node on a block of two deposits whose accesses to the map alternate.
use icsa_artifact.Base.{
  ℕ, ◌<◌, ◌≡◌, refl, true, Option, none, some, List, [], ◌∷◌, arith, if◌then◌else◌,
}
use icsa_artifact.Base.Int.{negsuc, ◌+ℤ◌, ◌-ℤ◌}
use icsa_artifact.Text.{Text, bytes, text_eq}
use icsa_artifact.Text.Decimal.{stoi, to_string}
use icsa_artifact.Contract.{ok, find, put, load_int, write}
use icsa_artifact.Serial.Run.{Transaction}
use icsa_artifact.Workers
use icsa_artifact.Workers.{done, start, claim, count, skip, stop}
use icsa_artifact.Parallel.{
  Call, ended, Processors, call_at, require, require_int, State, Runs, begin_calls, begin, next,
  process, answer, other, Step,
}
use icsa_artifact.Parallel.Wallet
use icsa_artifact.Parallel.Equal.{all_of}
use icsa_artifact.Parallel.Block.{edges, headers_of, unnamed}
use icsa_artifact.Parallel.Graph.{create, run_threads, dependency_matrix, fill_rows, fill_row}
use icsa_artifact.Dag.{
  past_row, first_row, extract_all, extract_transaction, depends, meets, contains,
}
use icsa_artifact.Tests.Blocks.{own_address, clean}
use icsa_artifact.Tests.Contracts.{stored}

-- A payload that is read as a deposit of 40 to the account of that name.
abbrev pub a_deposit : Text → Option (Text → Option Text)
a_deposit payload = some (λ key.
    if text_eq key (bytes "Verb")
    then some (bytes "deposit")
    else if text_eq key (bytes "Name")
    then some payload
    else if text_eq key (bytes "Value")
    then some (bytes "40")
    else none)

abbrev pub depositors : Processors
depositors = record {
  wallet_pro = λ t. Wallet.process_txn stored (λ h. true) a_deposit t.header t.payload;
  e_comm_pro = λ t. ended (ok true);
  vote_pro = λ t. ended (ok true);
  nft_pro = λ t. ended (ok true);
}

abbrev pub two_deposits : List (Text × Transaction)
two_deposits =
    (bytes "wallet", record { header = bytes "ann"; payload = bytes "ann" })
    ∷ (bytes "wallet", record { header = bytes "bob"; payload = bytes "bob" })
    ∷ []

abbrev pub wallet_family : Text → Option Text
wallet_family header = some (bytes "wallet")

abbrev pub none_linked : ℕ → ℕ → ℕ
none_linked = edges own_address (1 ∷ 0 ∷ []) (headers_of (unnamed two_deposits)) 2 clean

abbrev pub deposit_calls : ℕ → Call
deposit_calls = call_at depositors wallet_family (unnamed two_deposits)

-- Both are taken, both load, and the second stores first.
unfoldable pub stored_both : (s : State) × Runs 2 none_linked all_of deposit_calls [] s
unfolding start ◌-ℤ◌ ◌+ℤ◌ begin_calls call_at Wallet.process_txn Wallet.by_verb Wallet.deposit
    require require_int create run_threads dependency_matrix fill_rows fill_row past_row first_row
    extract_all extract_transaction depends meets contains stoi to_string load_int write find put
    text_eq
stored_both = (
  _,
  next
      (next
        (next
          (next
            (next (next begin (other (claim 0 (omega arith) refl) tt))
              (other (claim 1 (omega arith) refl) tt))
            (process 0 _ _ (omega arith) refl refl))
          (process 1 _ _ (omega arith) refl refl))
        (process 1 _ _ (omega arith) refl refl))
      (process 0 _ _ (omega arith) refl refl),
)

-- To the end.
pub finished : (s : State) × Runs 2 none_linked all_of deposit_calls [] s
unfolding start ◌-ℤ◌ ◌+ℤ◌ begin_calls call_at Wallet.process_txn Wallet.by_verb Wallet.deposit
    require require_int create run_threads dependency_matrix fill_rows fill_row past_row first_row
    extract_all extract_transaction depends meets contains stoi to_string load_int write find put
    text_eq stored_both
finished = (
  _,
  next
      (next
        (next
          (next
            (next
              (next (next stored_both.1 (answer 1 true (omega arith) refl refl))
                (answer 0 true (omega arith) refl refl))
              (other (count 0 (omega arith) refl) tt))
            (other (count 1 (omega arith) refl) tt))
          (other (skip 0 1 (omega arith) refl (omega arith) (ground arith)) tt))
        (other (stop 0 2 (omega arith) refl (omega arith)) tt))
      (other (stop 1 2 (omega arith) refl (omega arith)) tt),
)

-- What the end looks like.
pub record AtEnd (s : State) : Type 0 where
  pub phases : (i : ℕ) → i < 2 → s.system.phase i ≡ done
  pub degrees : (i : ℕ) → i < 2 → s.system.in_degree i ≡ negsuc 1

pub finished-AtEnd : AtEnd finished.0
unfolding finished stored_both start ◌-ℤ◌ ◌+ℤ◌ begin_calls call_at Wallet.process_txn Wallet.by_verb
    Wallet.deposit require require_int create run_threads dependency_matrix fill_rows fill_row
    past_row first_row extract_all extract_transaction depends meets contains stoi to_string
    load_int write find put text_eq
finished-AtEnd = record { phases = λ i h. ground arith; degrees = λ i h. ground arith }

pub no_step : {adj : ℕ → ℕ → ℕ} {s t : State} → AtEnd s → ¬ Step 2 adj s t
no_step e (process i next' change h p at) = ground (arith, e.phases i h)
no_step e (answer i b h p at) = ground (arith, e.phases i h)
no_step e (other (Workers.claim i h z) n) = ground (arith, e.degrees i h)
no_step e (other (Workers.execute i h p) n) = ground (arith, e.phases i h)
no_step e (other (Workers.count i h p) n) = ground (arith, e.phases i h)
no_step e (other (Workers.release i k h p lt a) n) = ground (arith, e.phases i h)
no_step e (other (Workers.skip i k h p lt a) n) = ground (arith, e.phases i h)
no_step e (other (Workers.stop i k h p le) n) = ground (arith, e.phases i h)
