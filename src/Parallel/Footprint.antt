-- ===== src/Parallel/Footprint.antt =====
-- Calls that read and write only the addresses in the header of their transaction.
use icsa_artifact.Base.{◌≡◌, refl, sym, ◌∙◌, arith, Bool-cases, inl, inr, ◌⊎◌, List}
use icsa_artifact.Text.{Text}
use icsa_artifact.Contract.{Map}
use icsa_artifact.Contract.Atomic.{Same}
use icsa_artifact.Dag.{TransactionStruct, contains}
use icsa_artifact.Dag.Conflict.{
  Has, Conflict, read_write, write_read, write_write, Has-of_contains, contains_of_Has,
}
use icsa_artifact.Parallel.{Call, ended, access, run}

pub Conflict-comm : {t u : TransactionStruct} → Conflict t u → Conflict u t
Conflict-comm (read_write x l r) = write_read x r l
Conflict-comm (write_read x l r) = read_write x r l
Conflict-comm (write_write x l r) = write_write x r l

pub Has-cases : (x : Text) (ys : List Text) → Has x ys ⊎ (¬ Has x ys)
Has-cases x ys = elim (Bool-cases (contains ys x)) [
  | inl found ↦ inl (Has-of_contains ys x found)
  | inr missing ↦ inr (λ h. ground (arith, contains_of_Has h))
]

module _ {V : Type 0} (view : Text → Map → V) where
  module _ (t : TransactionStruct) where
    abbrev pub Touches : Text → Type 0
    Touches x = Has x t.inputs ⊎ Has x t.outputs

    -- The two maps show the same under the addresses of the transaction.
    abbrev pub Alike : Map → Map → Type 0
    Alike m m' = (x : Text) → Touches x → view x m' ≡ view x m

    -- Each access changes the view of outputs only, and goes on by what is seen under the addresses.
    abbrev pub Within : Call → Type 0
    Within (ended answer) = Unit
    Within (access next change) =
        ((m : Map) (x : Text) → ¬ Has x t.outputs → view x (change m) ≡ view x m)
        × ((m m' : Map) → Alike m m' → (next m' ≡ next m) × Alike (change m) (change m'))
        × ((m : Map) → Within (next m))

    pub run-kept :
        (p : Call)
        → Within p
        → (m : Map) (x : Text) → ¬ Has x t.outputs
        → view x (run p m).1 ≡ view x m
    run-kept (ended answer) w m x out = refl
    run-kept (access next change) (kept, _, later) m x out =
        run-kept (next m) (later m) (change m) x out ∙ kept m x out

    pub run-Alike :
        (p : Call)
        → Within p
        → (m m' : Map) → Alike m m'
        → ((run p m').0 ≡ (run p m).0) × Alike (run p m).1 (run p m').1
    run-Alike (ended answer) w m m' a = (refl, a)
    run-Alike (access next change) (_, reads, later) m m' a =
        let (same_next, a') = reads m m' a in
        rw (run, same_next) (run-Alike (next m) (later m) (change m) (change m') a')

    -- On maps of the same view a call answers the same and leaves maps of the same view.
    pub run-Same :
        (p : Call)
        → Within p
        → (m m' : Map) → Same view m m'
        → ((run p m').0 ≡ (run p m).0) × Same view (run p m).1 (run p m').1
    run-Same p w m m' s =
        let (answers, a) = run-Alike p w m m' (λ x touched. s x) in
        (
          answers,
          λ x. elim (Has-cases x t.outputs) [
            | inl out ↦ a x (inr out)
            | inr other ↦ run-kept p w m' x other ∙ s x ∙ sym (run-kept p w m x other)
          ],
        )

  module _ (t u : TransactionStruct) (free : ¬ Conflict t u) where
    pub untouched : (x : Text) → Touches t x → ¬ Has x u.outputs
    untouched x (inl i) o = free (read_write x i o)
    untouched x (inr o') o = free (write_write x o' o)

    -- What the one does is not seen by the other.
    pub run-unseen : (q : Call) → Within u q → (m : Map) → Alike t m (run q m).1
    run-unseen q w m x touched = run-kept u q w m x (untouched x touched)

  -- Two calls without a conflict commute.
  pub run_comm :
      (t u : TransactionStruct)
      → ¬ Conflict t u
      → (p q : Call) → Within t p
      → Within u q
      → (m : Map) → Same view (run q (run p m).1).1 (run p (run q m).1).1
  run_comm t u free p q wp wq m x =
      let free' : ¬ Conflict u t = λ c. free (Conflict-comm c) in
      let p_after = (run-Alike t p wp m (run q m).1 (run-unseen t u free q wq m)).1 in
      let q_after = (run-Alike u q wq m (run p m).1 (run-unseen u t free' p wp m)).1 in
      elim (Has-cases x t.outputs) [
        | inl out_t ↦
            p_after x (inr out_t)
            ∙ sym (run-kept u q wq (run p m).1 x (untouched t u free x (inr out_t)))
        | inr not_t ↦ run-kept t p wp (run q m).1 x not_t ∙ elim (Has-cases x u.outputs) [
          | inl out_u ↦ sym (q_after x (inr out_u))
          | inr not_u ↦
              run-kept u q wq m x not_u
              ∙ sym (run-kept t p wp m x not_t)
              ∙ sym (run-kept u q wq (run p m).1 x not_u)
        ]
      ]
