-- ===== src/Takers/Safe.antt =====
-- The distributed node's threads, `selectTxn` and `complete`, step by step against Workers.
use icsa_artifact.Base.{ℕ, ◌+◌, ◌≡◌, refl, ◌∙◌, sym, ap, subst, Bool, some, arith}
use icsa_artifact.Base.Int.{ℤ}
use icsa_artifact.Workers.{executed, releasing, done}
use icsa_artifact.Workers
use icsa_artifact.Workers.Inv.{IsDag}
use icsa_artifact.Takers.{
  Place, outside, first, first_free, second, second_free, storing, processing, counting, lowering,
  Threads, Step, Reach, IsFresh, FreshStep,
}
use icsa_artifact.Takers
use icsa_artifact.Takers.Fresh.{
  held, Fits, Image, Fits-update, set_place, lets_go, carries_on, takes,
}

module _ (n : ℕ) (adj : ℕ → ℕ → ℕ) (assigned : ℕ → Bool) where
  at :
      {degree : ℕ → ℤ} {c : ℕ} {place : ℕ → Place}
      → (im : Image n adj assigned degree c place) (t : ℕ) (p : Place) → place t ≡ p
      → Fits n im.phase p
  at im t p e = subst (Fits n im.phase) e (im.fits t)

  -- It goes on with its transaction in the same phase.
  stays :
      {degree : ℕ → ℤ} {c : ℕ} {place : ℕ → Place}
      → (im : Image n adj assigned degree c place) (t i : ℕ) (p : Place) → held (place t) ≡ some i
      → held p ≡ some i
      → Fits n im.phase p
      → Image n adj assigned degree c (Workers.update place t p)
  stays im t i p has still mine =
      set_place n adj assigned im im.phase im.reach t p mine (λ u ne. im.fits u)
        (λ u j ne e e'. ne (im.one_holds t u i has (e' ∙ sym e ∙ still)))

  module _ (dag : IsDag adj assigned) where
    Step-Image :
        {s u : Threads}
        → (step : Step n adj s u) → FreshStep n adj step
        → Image n adj assigned s.in_degree s.completed s.place
        → Image n adj assigned u.in_degree u.completed u.place
    Step-Image (Takers.enter t p) f im = lets_go n adj assigned im t _ tt refl
    Step-Image (Takers.first_busy t i v p lt z) f im = lets_go n adj assigned im t _ tt refl
    Step-Image (Takers.first_load t i v p lt z) f im = lets_go n adj assigned im t _ lt refl
    Step-Image (Takers.first_take t i p z) f im =
        takes n adj assigned dag im t i (at im t (first_free i) p) z
    Step-Image (Takers.first_fail t i p z) f im = lets_go n adj assigned im t _ tt refl
    Step-Image (Takers.turn_round t i v p le) f im = lets_go n adj assigned im t _ tt refl
    Step-Image (Takers.second_busy t i v p lt z) f im = lets_go n adj assigned im t _ tt refl
    Step-Image (Takers.second_load t i v p lt z) f im = lets_go n adj assigned im t _ lt refl
    Step-Image (Takers.second_take t i v p e) f im =
        takes n adj assigned dag im t i (at im t (second_free i v) p) (e ∙ f)
    Step-Image (Takers.second_fail t i v p z) f im = lets_go n adj assigned im t _ tt refl
    Step-Image (Takers.give_up t i v p le) f im = lets_go n adj assigned im t _ tt refl
    Step-Image (Takers.store t i p) f im =
        stays im t i (processing i) (ap held p) refl (at im t (storing i) p)
    Step-Image (Takers.lose t i p) f im = lets_go n adj assigned im t _ tt refl
    Step-Image (Takers.execute t i p) f im =
        let (lt, runs) = at im t (processing i) p in
        carries_on n adj assigned im t i (counting i) executed (ap held p) refl
          (Workers.next im.reach (Workers.execute i lt runs)) (lt, ground arith)
    Step-Image (Takers.count t i p) f im =
        let (lt, ran) = at im t (counting i) p in
        carries_on n adj assigned im t i (lowering i (i + 1)) (releasing (i + 1)) (ap held p) refl
          (Workers.next im.reach (Workers.count i lt ran)) (lt, ground arith)
    Step-Image (Takers.lower t i k p k_lt edge) f im =
        let (lt, frees) = at im t (lowering i k) p in
        carries_on n adj assigned im t i (lowering i (k + 1)) (releasing (k + 1)) (ap held p) refl
          (Workers.next im.reach (Workers.release i k lt frees k_lt edge)) (lt, ground arith)
    Step-Image (Takers.pass t i k p k_lt no_edge) f im =
        let (lt, frees) = at im t (lowering i k) p in
        carries_on n adj assigned im t i (lowering i (k + 1)) (releasing (k + 1)) (ap held p) refl
          (Workers.next im.reach (Workers.skip i k lt frees k_lt no_edge)) (lt, ground arith)
    Step-Image (Takers.leave t i k p le) f im =
        let (lt, frees) = at im t (lowering i k) p in
        set_place n adj assigned im (Workers.update im.phase i done)
          (Workers.next im.reach (Workers.stop i k lt frees le)) t outside tt
          (λ u ne.
            Fits-update n im.phase i done _ (λ e. ne (im.one_holds t u i (ap held p) e))
              (im.fits u))
          (λ u j ne e e'. cc)

    -- Every state of a fresh run is one of Workers, with no transaction in two hands.
    pub Reach-Image :
        {last_txn : ℕ} {s : Threads}
        → (r : Reach n adj assigned last_txn s) → IsFresh n adj r
        → Image n adj assigned s.in_degree s.completed s.place
    Reach-Image Takers.begin f = record {
      phase = _;
      reach = Workers.begin;
      fits = λ t. tt;
      one_holds = λ t u i e e'. cc;
    }
    Reach-Image (Takers.next r step) f = Step-Image step f.1 (Reach-Image r f.0)

-- Over a matrix and a share of the node as `IsDag` describes, in every state that the distributed
-- node's threads reach by a run in which each successful exchange of the second loop of `selectTxn`
-- has 0 in `var_zero`: two threads that process one transaction are the same thread.
pub taken_by_one :
    (n : ℕ) (adj : ℕ → ℕ → ℕ) (assigned : ℕ → Bool)
    → IsDag adj assigned
    → {last_txn : ℕ} {s : Threads} → (r : Reach n adj assigned last_txn s) → IsFresh n adj r
    → (t u i : ℕ) → s.place t ≡ processing i
    → s.place u ≡ processing i
    → t ≡ u
taken_by_one n adj assigned dag r fresh t u i at_t at_u =
    (Reach-Image n adj assigned dag r fresh).one_holds t u i (ap held at_t) (ap held at_u)

-- What a thread processes is in the phase `running` of Workers.
pub processes :
    (n : ℕ) (adj : ℕ → ℕ → ℕ) (assigned : ℕ → Bool) (dag : IsDag adj assigned) {last_txn : ℕ}
    {s : Threads} (r : Reach n adj assigned last_txn s) (fresh : IsFresh n adj r) (t i : ℕ)
    → s.place t ≡ processing i
    → (Reach-Image n adj assigned dag r fresh).phase i ≡ Workers.running
processes n adj assigned dag r fresh t i e =
    (at n adj assigned (Reach-Image n adj assigned dag r fresh) t (processing i) e).1
