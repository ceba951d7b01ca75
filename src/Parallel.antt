-- ===== src/Parallel.antt =====
-- singleNode-parallel/scheduler/scheduler.h, `executeTxns`: the threads, the map that the calls of
-- the processors share, and the flag that a refused transaction lowers. The distributed node's
-- `executeTxns` is the same loop over its share of the block.
pub mod Footprint
pub mod Turns
pub mod Ordered
pub mod Access
pub mod Claim
pub mod Answer
pub mod Keep
pub mod Share
pub mod Equal
pub mod Graph
pub mod Threads
pub mod Filled
pub mod Refine
pub mod Flush
pub mod Schedule
pub mod Ready
pub mod Apart
pub mod Block
pub mod Settled
pub mod Nodes
pub mod Rules
pub mod Wallet
pub mod Local
pub mod Voting
use icsa_artifact.Base.{
  ℕ, ◌+◌, ◌<◌, ◌≡◌, Bool, true, false, if◌then◌else◌, Option, none, some, List, [], get_elem?,
}
use icsa_artifact.Base.Int.{ℤ, pos, ◌-ℤ◌, is_int32}
use icsa_artifact.Text.{Text, bytes, text_eq}
use icsa_artifact.Serial.Run.{Transaction}
use icsa_artifact.Contract.{Map, Outcome, ok, threw, undefined, M, catch_false}
use icsa_artifact.Workers.{System, Reach, running, executed, update}
use icsa_artifact.Workers

-- A call of `ProcessTxn` that is under way: it has ended, or its next access to the map is to come.
-- Other threads may access the map between two accesses.
pub data Call : Type 0 where
  ended : Outcome Bool → Call
  access : (next : Map → Call) (change : Map → Map) → Call

-- The rest of a call with no other thread in between.
abbrev pub run : Call → M Bool
run (ended answer) m = (answer, m)
run (access next change) m = run (next m) (change m)

abbrev pub resume : {A : Type 0} → Outcome A → (A → Call) → Call
resume (ok a) rest = rest a
resume threw rest = ended threw
resume undefined rest = ended undefined

-- One operation on the map, and what follows.
abbrev pub perform : {A : Type 0} → M A → (A → Call) → Call
perform c rest = access (λ m. resume (c m).0 rest) (λ m. (c m).1)

-- What throws where there is nothing, and what follows.
unfoldable pub require : {A : Type 0} → Option A → (A → Call) → Call
require none rest = ended threw
require (some a) rest = rest a

-- The result of `int` arithmetic, and what follows.
unfoldable pub require_int : ℤ → (ℤ → Call) → Call
require_int v rest = if is_int32 v then rest v else ended undefined

-- `catch (const std::exception&) { return false; }` around a call.
abbrev pub caught : Call → Call
caught (ended answer) = ended (catch_false (answer, [])).0
caught (access next change) = access (λ m. caught (next m)) change

-- `walletPro`, `eCommPro`, `votePro` and `nftPro`: the calls of `ProcessTxn` of each.
pub record Processors : Type 0 where
  pub wallet_pro : Transaction → Call
  pub e_comm_pro : Transaction → Call
  pub vote_pro : Transaction → Call
  pub nft_pro : Transaction → Call

-- The call that `executeTxns` makes for a family; `localSuccess` stays `false` for an unknown one.
unfoldable pub process_txn : Processors → Text → Transaction → Call
process_txn pro family txn =
    if text_eq family (bytes "wallet")
    then pro.wallet_pro txn
    else if text_eq family (bytes "eComm")
    then pro.e_comm_pro txn
    else if text_eq family (bytes "voting")
    then pro.vote_pro txn
    else if text_eq family (bytes "nft")
    then pro.nft_pro txn
    else ended (ok false)

-- The call for the transaction at a position, `transactions[txnId]`. After a header that does not
-- parse the loop goes on without `complete`: no further step is the transaction's.
unfoldable pub call_at : Processors → (Text → Option Text) → List Transaction → ℕ → Call
unfolding process_txn
call_at pro family transactions id = elim (get_elem? transactions id) [
  | none ↦ ended undefined
  | some txn ↦ elim (family txn.header) [
    | none ↦ ended undefined
    | some name ↦ process_txn pro name txn
  ]
]

pub record State : Type 0 where
  pub system : System
  pub my_map : Map
  pub flag : Bool
  pub left : ℕ → Call  -- what is left of the call for each transaction

-- The steps in which no call ends.
abbrev pub EndsNone : {n : ℕ} {adj : ℕ → ℕ → ℕ} {s t : System} → Workers.Step n adj s t → Type 0
EndsNone (Workers.claim i h z) = Unit
EndsNone (Workers.execute i h p) = ⊥
EndsNone (Workers.count i h p) = Unit
EndsNone (Workers.release i k h p lt a) = Unit
EndsNone (Workers.skip i k h p lt a) = Unit
EndsNone (Workers.stop i k h p le) = Unit

module _ (n : ℕ) (adj : ℕ → ℕ → ℕ) where
  pub data Step (s : State) : State → Type 0 where
    -- an access of `ProcessTxn` to the map
    process :
        (i : ℕ) (next : Map → Call) (change : Map → Map)
        → i < n
        → s.system.phase i ≡ running
        → s.left i ≡ access next change
        → Step s (record s { my_map = change s.my_map; left = update s.left i (next s.my_map) })
    -- `localSuccess`, `flag.store(false)`, and the first `fetch_sub` of `complete`
    answer :
        (i : ℕ) (local_success : Bool)
        → i < n
        → s.system.phase i ≡ running
        → s.left i ≡ ended (ok local_success)
        → Step s (record s {
          system = record s.system {
            in_degree = update s.system.in_degree i (s.system.in_degree i -ℤ pos 1);
            phase = update s.system.phase i executed;
          };
          flag = if local_success then s.flag else false;
        })
    -- `selectTxn`, and the rest of `complete`
    other :
        {system : System} (step : Workers.Step n adj s.system system)
        → EndsNone step
        → Step s (record s { system = system })

  -- The calls before any thread runs, the map of the block, and the flag as `schedulTxns` sets it.
  unfoldable pub begin_calls : (ℕ → Bool) → (ℕ → Call) → Map → State
  begin_calls assigned call m = record {
    system = Workers.start n adj assigned;
    my_map = m;
    flag = true;
    left = call;
  }

  pub data Runs (assigned : ℕ → Bool) (call : ℕ → Call) (m : Map) : State → Type 0 where
    begin : Runs assigned call m (begin_calls assigned call m)
    next : {s t : State} → Runs assigned call m s → Step s t → Runs assigned call m t

  -- The threads take the steps of `Workers`, whatever the calls do.
  pub Reach-of_Runs :
      {assigned : ℕ → Bool} {call : ℕ → Call} {m : Map} {s : State}
      → Runs assigned call m s
      → Reach n adj assigned s.system
  unfolding begin_calls
  Reach-of_Runs begin = Workers.begin
  Reach-of_Runs (next r (process i next' change h p e)) = Reach-of_Runs r
  Reach-of_Runs (next r (answer i b h p e)) = Workers.next (Reach-of_Runs r) (Workers.execute i h p)
  Reach-of_Runs (next r (other step none_ends)) = Workers.next (Reach-of_Runs r) step
