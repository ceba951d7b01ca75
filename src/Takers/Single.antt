-- ===== src/Takers/Single.antt =====
-- Runs of one thread of the distributed node.
use icsa_artifact.Base.{ℕ, ◌≡◌, refl, ◌∙◌, sym, ap, subst, Bool}
use icsa_artifact.Base.Int.{ℤ, pos}
use icsa_artifact.Workers.{update}
use icsa_artifact.Takers.{
  Place, outside, first, first_free, second, second_free, storing, processing, counting, lowering,
  Threads, Step, Reach, IsFresh, FreshStep,
}
use icsa_artifact.Takers
use icsa_artifact.Takers.Fresh.{update-same}

module _ (n : ℕ) (adj : ℕ → ℕ → ℕ) where
  -- The thread that takes a step.
  abbrev pub actor : {s u : Threads} → Step n adj s u → ℕ
  actor (Takers.enter t p) = t
  actor (Takers.first_busy t i v p lt z) = t
  actor (Takers.first_load t i v p lt z) = t
  actor (Takers.first_take t i p z) = t
  actor (Takers.first_fail t i p z) = t
  actor (Takers.turn_round t i v p le) = t
  actor (Takers.second_busy t i v p lt z) = t
  actor (Takers.second_load t i v p lt z) = t
  actor (Takers.second_take t i v p e) = t
  actor (Takers.second_fail t i v p z) = t
  actor (Takers.give_up t i v p le) = t
  actor (Takers.store t i p) = t
  actor (Takers.lose t i p) = t
  actor (Takers.execute t i p) = t
  actor (Takers.count t i p) = t
  actor (Takers.lower t i k p lt e) = t
  actor (Takers.pass t i k p lt e) = t
  actor (Takers.leave t i k p le) = t

  -- Only thread `t` takes steps.
  abbrev pub IsAlone :
      (t : ℕ) {assigned : ℕ → Bool} {last_txn : ℕ} {s : Threads}
      → Reach n adj assigned last_txn s
      → Type 0
  IsAlone t Takers.begin = Unit
  IsAlone t (Takers.next r step) = IsAlone t r × (actor step ≡ t)

  -- What the thread loaded is still there, and `var_zero` is 0.
  abbrev Current : (ℕ → ℤ) → Place → Type 0
  Current degree (first i v) = v ≡ pos 0
  Current degree (first_free i) = degree i ≡ pos 0
  Current degree (second i v) = v ≡ pos 0
  Current degree (second_free i v) = (v ≡ pos 0) × (degree i ≡ pos 0)
  Current degree _ = Unit

  module _ (s : Threads) (t a : ℕ) (same : a ≡ t) (now : Current s.in_degree (s.place t)) where
    before : (p : Place) → s.place a ≡ p → Current s.in_degree p
    before p e = subst (Current s.in_degree) (ap s.place (sym same) ∙ e) now

    after : (degree : ℕ → ℤ) (p : Place) → Current degree p → Current degree (update s.place a p t)
    after degree p c = subst (Current degree) (sym (update-same s.place a p t same)) c

  Step-Current :
      (t : ℕ) {s u : Threads}
      → (step : Step n adj s u) → actor step ≡ t
      → Current s.in_degree (s.place t)
      → Current u.in_degree (u.place t) × FreshStep n adj step
  Step-Current t {s} (Takers.enter a p) e c = (after s t a e c _ _ refl, tt)
  Step-Current t {s} (Takers.first_busy a i v p lt z) e c =
      (after s t a e c _ _ (before s t a e c (first i v) p), tt)
  Step-Current t {s} (Takers.first_load a i v p lt z) e c = (after s t a e c _ _ z, tt)
  Step-Current t {s} (Takers.first_take a i p z) e c = (after s t a e c _ _ tt, tt)
  Step-Current t {s} (Takers.first_fail a i p z) e c =
      absurd (z (before s t a e c (first_free i) p))
  Step-Current t {s} (Takers.turn_round a i v p le) e c =
      (after s t a e c _ _ (before s t a e c (first i v) p), tt)
  Step-Current t {s} (Takers.second_busy a i v p lt z) e c =
      (after s t a e c _ _ (before s t a e c (second i v) p), tt)
  Step-Current t {s} (Takers.second_load a i v p lt z) e c =
      (after s t a e c _ _ (before s t a e c (second i v) p, z), tt)
  Step-Current t {s} (Takers.second_take a i v p z) e c =
      (after s t a e c _ _ tt, (before s t a e c (second_free i v) p).0)
  Step-Current t {s} (Takers.second_fail a i v p z) e c =
      let b = before s t a e c (second_free i v) p in absurd (z (b.1 ∙ sym b.0))
  Step-Current t {s} (Takers.give_up a i v p le) e c = (after s t a e c _ _ tt, tt)
  Step-Current t {s} (Takers.store a i p) e c = (after s t a e c _ _ tt, tt)
  Step-Current t {s} (Takers.lose a i p) e c = (after s t a e c _ _ tt, tt)
  Step-Current t {s} (Takers.execute a i p) e c = (after s t a e c _ _ tt, tt)
  Step-Current t {s} (Takers.count a i p) e c = (after s t a e c _ _ tt, tt)
  Step-Current t {s} (Takers.lower a i k p lt edge) e c = (after s t a e c _ _ tt, tt)
  Step-Current t {s} (Takers.pass a i k p lt edge) e c = (after s t a e c _ _ tt, tt)
  Step-Current t {s} (Takers.leave a i k p le) e c = (after s t a e c _ _ tt, tt)

  Reach-Current :
      (t : ℕ) {assigned : ℕ → Bool} {last_txn : ℕ} {s : Threads}
      → (r : Reach n adj assigned last_txn s) → IsAlone t r
      → Current s.in_degree (s.place t) × IsFresh n adj r
  Reach-Current t Takers.begin alone = (tt, tt)
  Reach-Current t (Takers.next r step) alone =
      let (now, fresh) = Reach-Current t r alone.0 in
      let (then, fresh_step) = Step-Current t step alone.1 now in (then, (fresh, fresh_step))

-- A run of a single thread of the distributed node, over any matrix and any share of the block, has
-- no exchange of the second loop of `selectTxn` that succeeds with a value other than 0 in
-- `var_zero`.
pub alone-IsFresh :
    (n : ℕ) (adj : ℕ → ℕ → ℕ) (t : ℕ) {assigned : ℕ → Bool} {last_txn : ℕ} {s : Threads}
    → (r : Reach n adj assigned last_txn s) → IsAlone n adj t r
    → IsFresh n adj r
alone-IsFresh n adj t r alone = (Reach-Current n adj t r alone).1
