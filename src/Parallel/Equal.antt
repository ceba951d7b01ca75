-- ===== src/Parallel/Equal.antt =====
-- The threads against the execution of the transactions one after the other, in the order of the
-- block.
use icsa_artifact.Base.{
  ℕ, suc, ◌+◌, ◌≤◌, ◌<◌, ◌≡◌, refl, sym, ◌∙◌, ap, ap₂, subst, Bool, true, false, Option, some, List,
  [], ◌∷◌, ◌++◌, arith, if◌then◌else◌, length, map, length-append, dec_lt,
}
use icsa_artifact.Text.{Text, bytes, text_eq, text_eq_sound}
use icsa_artifact.Contract.{Map, Outcome, ok, threw, undefined, M, ◌>>=◌, bind, return}
use icsa_artifact.Serial.Run.{Transaction, process}
use icsa_artifact.Serial.Run
use icsa_artifact.Serial.Order.{in_order, Families, element_at, append_one}
use icsa_artifact.Parallel.{Call, run, Processors, process_txn, call_at}
use icsa_artifact.Parallel.Turns.{in_turn}
use icsa_artifact.Parallel.Ordered.{effects}

-- The processors, each call without another thread in between.
abbrev pub alone : Processors → Run.Processors
alone pro = record {
  wallet_pro = λ t. run (pro.wallet_pro t);
  e_comm_pro = λ t. run (pro.e_comm_pro t);
  nft_pro = λ t. run (pro.nft_pro t);
  vote_pro = λ t. run (pro.vote_pro t);
}

nft_no_voting :
    (name : Text) → text_eq name (bytes "nft") ≡ true → text_eq name (bytes "voting") ≡ false
unfolding text_eq
nft_no_voting name e = rw (text_eq_sound name (bytes "nft") e) refl

run-process :
    (pro : Processors) (name : Text) (txn : Transaction) (m : Map)
    → run (process_txn pro name txn) m ≡ process (alone pro) name txn m
unfolding process process_txn return
run-process pro name txn m = ground (arith, nft_no_voting name)

abbrev pub all_of : ℕ → Bool
all_of i = true

-- A call and what follows it answer `true` together.
both_true :
    (f : M Bool) (r : Outcome Bool × Map)
    → (bind r (λ answer. if answer then f else return false)).0 ≡ ok true
    → (r.0 ≡ ok true) × ((f r.1).0 ≡ ok true)
unfolding return
both_true f (ok true, m) e = (refl, e)
both_true f (ok false, m) e = cc
both_true f (threw, m) e = cc
both_true f (undefined, m) e = cc

then_next :
    (f : M Bool) (r : Outcome Bool × Map)
    → r.0 ≡ ok true
    → bind r (λ answer. if answer then f else return false) ≡ f r.1
then_next f (ok true, m) e = refl
then_next f (ok false, m) e = cc
then_next f (threw, m) e = cc
then_next f (undefined, m) e = cc

module _ (pro : Processors) (family : Text → Option Text) where
  call_at-length :
      (done rest : List (Text × Transaction)) (name : Text) (txn : Transaction)
      → family txn.header ≡ some name
      → call_at pro family
          (map (λ (p : Text × Transaction). p.1) (done ++ ((name, txn) ∷ rest)))
          (length done)
        ≡ process_txn pro name txn
  unfolding call_at
  call_at-length done rest name txn e = rw (call_at, element_at done rest (name, txn), e) refl

  -- The calls in the order of the block, from index `k` on.
  module _ (start : Map) (transactions : List Transaction) where
    abbrev pub calls : ℕ → Call
    calls = call_at pro family transactions

    abbrev pub before : ℕ → Map
    before k = in_turn all_of (effects calls) k start

    call_here :
        (done rest : List (Text × Transaction)) (name : Text) (txn : Transaction) (k : ℕ)
        → transactions ≡ map (λ (p : Text × Transaction). p.1) (done ++ ((name, txn) ∷ rest))
        → length done ≡ k
        → family txn.header ≡ some name
        → (m : Map) → run (calls k) m ≡ process (alone pro) name txn m
    call_here done rest name txn k t dk e m =
        ap (λ p. run p m)
          (ap₂ (λ ts j. call_at pro family ts j) t (sym dk) ∙ call_at-length done rest name txn e)
        ∙ run-process pro name txn m

    pub true_of_in_order :
        (done rest : List (Text × Transaction)) (k : ℕ)
        → transactions ≡ map (λ (p : Text × Transaction). p.1) (done ++ rest)
        → length done ≡ k
        → Families (alone pro) family rest
        → (in_order (alone pro) rest (before k)).0 ≡ ok true
        → (i : ℕ) → k ≤ i
        → i < k + length rest
        → (run (calls i) (before i)).0 ≡ ok true
    unfolding in_order in_turn ◌>>=◌
    true_of_in_order done [] k t dk f e i lo hi = absurd (omega arith)
    true_of_in_order done ((name, txn) ∷ rest) k t dk f e i lo hi =
        let here = call_here done rest name txn k t dk f.0 (before k) in
        let both =
          both_true (in_order (alone pro) rest) (process (alone pro) name txn (before k)) e in
        elim (dec_lt k i) [
          | yes above ↦
              true_of_in_order (done ++ ((name, txn) ∷ [])) rest (suc k)
                (t
                  ∙ ap (map (λ (p : Text × Transaction). p.1))
                      (sym (append_one done rest (name, txn))))
                (omega (arith, length-append done ((name, txn) ∷ []))) f.1
                (ap (λ r. (in_order (alone pro) rest r.1).0) here ∙ both.1) i (omega arith)
                (omega arith)
          | no at ↦
              let e' : k ≡ i = omega arith in
              subst (λ j. (run (calls j) (before j)).0 ≡ ok true) e' (ap (λ r. r.0) here ∙ both.0)
        ]

    pub in_order-of_true :
        (done rest : List (Text × Transaction)) (k : ℕ)
        → transactions ≡ map (λ (p : Text × Transaction). p.1) (done ++ rest)
        → length done ≡ k
        → Families (alone pro) family rest
        → ((i : ℕ) → k ≤ i → i < k + length rest → (run (calls i) (before i)).0 ≡ ok true)
        → in_order (alone pro) rest (before k) ≡ (ok true, before (k + length rest))
    unfolding in_order in_turn ◌>>=◌ return
    in_order-of_true done [] k t dk f good =
        let e : k ≡ k + 0 = omega arith in ap (λ j. (ok true, before j)) e
    in_order-of_true done ((name, txn) ∷ rest) k t dk f good =
        let here = call_here done rest name txn k t dk f.0 (before k) in
        let e : suc k + length rest ≡ k + suc (length rest) = omega arith in
        then_next (in_order (alone pro) rest) (process (alone pro) name txn (before k))
          (ap (λ r. r.0) (sym here) ∙ good k (omega arith) (omega arith))
        ∙ ap (λ r. in_order (alone pro) rest r.1) (sym here)
        ∙ in_order-of_true (done ++ ((name, txn) ∷ [])) rest (suc k)
            (t
              ∙ ap (map (λ (p : Text × Transaction). p.1)) (sym (append_one done rest (name, txn))))
            (omega (arith, length-append done ((name, txn) ∷ []))) f.1
            (λ i lo hi. good i (omega arith) (omega arith))
        ∙ ap (λ j. (ok true, before j)) e
