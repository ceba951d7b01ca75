-- ===== src/Parallel/Turns.antt =====
-- The effects of chosen transactions, one after the other in the order of the block.
use icsa_artifact.Base.{
  ℕ, zero, suc, ◌≤◌, ◌<◌, ◌≡◌, ◌≢◌, refl, ◌∙◌, Bool, true, false, arith, if◌then◌else◌, Bool-cases,
  inl, inr, dec_lt, dec_le,
}
use icsa_artifact.Text.{Text}
use icsa_artifact.Contract.{Map}
use icsa_artifact.Contract.Atomic.{Same}

abbrev pub turn : (ℕ → Bool) → (ℕ → Map → Map) → ℕ → Map → Map
turn on act k m = if on k then act k m else m

-- The transactions below an index.
unfoldable pub in_turn : (ℕ → Bool) → (ℕ → Map → Map) → ℕ → Map → Map
in_turn on act zero m = m
in_turn on act (suc k) m = turn on act k (in_turn on act k m)

pub in_turn-cong :
    (on on' : ℕ → Bool) (act act' : ℕ → Map → Map) (n : ℕ) (m : Map)
    → ((k : ℕ) → k < n → (m' : Map) → turn on' act' k m' ≡ turn on act k m')
    → in_turn on' act' n m ≡ in_turn on act n m
unfolding in_turn
in_turn-cong on on' act act' zero m h = refl
in_turn-cong on on' act act' (suc n) m h =
    rw (in_turn-cong on on' act act' n m (λ k lt. h k (omega arith))) (h n (omega arith) _)

pub in_turn-none :
    (on : ℕ → Bool) (act : ℕ → Map → Map) (n : ℕ) (m : Map)
    → ((k : ℕ) → k < n → on k ≡ false)
    → in_turn on act n m ≡ m
unfolding in_turn
in_turn-none on act zero m off = refl
in_turn-none on act (suc n) m off =
    rw (off n (omega arith)) (in_turn-none on act n m (λ k lt. off k (omega arith)))

-- The second choice has one transaction more.
pub record Joins (on on' : ℕ → Bool) (i : ℕ) : Type 0 where
  pub fresh : on i ≡ false
  pub there : on' i ≡ true
  pub rest : (j : ℕ) → i ≢ j → on' j ≡ on j

-- The transactions from `k` on are not seen, where none of them is seen by itself.
pub in_turn-unseen :
    {V : Type 0} (view : Text → Map → V) (P : Text → Type 0) (on : ℕ → Bool) (act : ℕ → Map → Map)
    (k n : ℕ) (m : Map)
    → k ≤ n
    → ((j : ℕ)
        → k ≤ j
        → j < n
        → on j ≡ true
        → (m' : Map) (x : Text) → P x
        → view x (act j m') ≡ view x m')
    → (x : Text) → P x
    → view x (in_turn on act n m) ≡ view x (in_turn on act k m)
unfolding in_turn
in_turn-unseen view P on act k zero m le unseen x h = let e : k ≡ 0 = omega arith in rw e
in_turn-unseen view P on act k (suc n) m le unseen x h = elim (dec_le k n) [
  | yes below ↦
      let ih =
        in_turn-unseen view P on act k n m below (λ j lo hi. unseen j lo (omega arith)) x h in
      elim (Bool-cases (on n)) [
        | inl here ↦ rw here (unseen n below (omega arith) here (in_turn on act n m) x h ∙ ih)
        | inr off ↦ rw off ih
      ]
  | no at ↦ let e : k ≡ suc n = omega arith in rw (e, in_turn)
]

module _ {V : Type 0} (view : Text → Map → V) where
  Same-turn :
      (on : ℕ → Bool) (act : ℕ → Map → Map) (k : ℕ) (m m' : Map)
      → (Same view m m' → Same view (act k m) (act k m'))
      → Same view m m'
      → Same view (turn on act k m) (turn on act k m')
  Same-turn on act k m m' respects s = elim (Bool-cases (on k)) [
    | inl here ↦ rw here (respects s)
    | inr off ↦ rw off s
  ]

  module _ (on on' : ℕ → Bool) (act : ℕ → Map → Map) (i : ℕ) (joins : Joins on on' i)
      (respects : (k : ℕ) (m m' : Map) → Same view m m' → Same view (act k m) (act k m')) where
    below : (k : ℕ) (m : Map) → k ≤ i → in_turn on' act k m ≡ in_turn on act k m
    below k m le = in_turn-cong on on' act act k m (λ j lt m'. rw (joins.rest j (omega arith)) refl)

    -- Past what comes after it.
    turn-past :
        (k : ℕ) (m : Map)
        → (on k ≡ true → Same view (act k (act i m)) (act i (act k m)))
        → Same view (turn on act k (act i m)) (act i (turn on act k m))
    turn-past k m commutes = elim (Bool-cases (on k)) [
      | inl here ↦ rw here (commutes here)
      | inr off ↦ rw off (λ x. refl)
    ]

    -- The additional transaction may come last, if it commutes with the later ones.
    pub join_last :
        (n : ℕ) (m : Map)
        → i < n
        → ((j : ℕ)
            → i < j
            → j < n
            → on j ≡ true
            → (m' : Map) → Same view (act j (act i m')) (act i (act j m')))
        → Same view (in_turn on' act n m) (act i (in_turn on act n m))
    unfolding in_turn
    join_last zero m lt commutes = absurd (omega arith)
    join_last (suc n) m lt commutes = elim (dec_lt i n) [
      | yes before ↦
          let ih = join_last n m before (λ j lo hi. commutes j lo (omega arith)) in
          rw (joins.rest n (omega arith)) (λ x.
            turn-past n (in_turn on act n m)
              (λ here. commutes n before (omega arith) here (in_turn on act n m)) x
            ∙ Same-turn on act n _ _ (respects n _ _) ih x)
      | no at ↦
          let e : n ≡ i = omega arith in
          rw (e, joins.there, joins.fresh, below i m (omega arith)) (λ x. refl)
    ]

    -- Past all that comes before it.
    in_turn-past :
        (k : ℕ) (m : Map)
        → ((j : ℕ)
            → j < k
            → on j ≡ true
            → (m' : Map) → Same view (act j (act i m')) (act i (act j m')))
        → Same view (in_turn on act k (act i m)) (act i (in_turn on act k m))
    unfolding in_turn
    in_turn-past zero m commutes = λ x. refl
    in_turn-past (suc k) m commutes = λ x.
        turn-past k (in_turn on act k m)
          (λ here. commutes k (omega arith) here (in_turn on act k m)) x
        ∙ Same-turn on act k _ _ (respects k _ _)
            (in_turn-past k m (λ j lt. commutes j (omega arith))) x

    -- It may come first, if it commutes with the earlier ones.
    pub join_first :
        (n : ℕ) (m : Map)
        → i < n
        → ((j : ℕ)
            → j < i
            → on j ≡ true
            → (m' : Map) → Same view (act j (act i m')) (act i (act j m')))
        → Same view (in_turn on act n (act i m)) (in_turn on' act n m)
    unfolding in_turn
    join_first zero m lt commutes = absurd (omega arith)
    join_first (suc n) m lt commutes = elim (dec_lt i n) [
      | yes before ↦
          rw (joins.rest n (omega arith))
            (Same-turn on act n _ _ (respects n _ _) (join_first n m before commutes))
      | no at ↦
          let e : n ≡ i = omega arith in
          rw (e, joins.there, joins.fresh, below i m (omega arith)) (in_turn-past i m commutes)
    ]
