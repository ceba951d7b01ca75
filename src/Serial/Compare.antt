-- ===== src/Serial/Compare.antt =====
-- The loops over the addresses of two transactions, where the counts are set.
use icsa_artifact.Base.{
  ℕ, zero, suc, ◌+◌, ◌<◌, ◌≡◌, refl, ◌∙◌, Bool, true, false, ◌||◌, some, List, [], ◌∷◌, arith,
  length, get_elem?, drop,
}
use icsa_artifact.Text.{Text, text_eq, text_eq_iff}
use icsa_artifact.Dag.{TransactionStruct, contains, meets, depends}
use icsa_artifact.Serial.{seek, compare, compare_all, or_else, flag_of}

text_eq_comm : (s t : Text) → text_eq s t ≡ text_eq t s
text_eq_comm s t = ground (arith, text_eq_iff s t, text_eq_iff t s)

-- An element that is there is the head of what is left at its index.
found :
    (xs : List Text) (j : ℕ)
    → j < length xs
    → (x : Text) × (get_elem? xs j ≡ some x) × (drop j xs ≡ x ∷ drop (suc j) xs)
found [] j h = absurd (omega arith)
found (x ∷ xs) zero h = (x, refl, refl)
found (x ∷ xs) (suc j) h = let (y, e, d) = found xs j (omega arith) in (y, e, d)

drop-length : (xs : List Text) (k : ℕ) → k ≡ length xs → drop k xs ≡ []
drop-length [] zero h = refl
drop-length [] (suc k) h = refl
drop-length (x ∷ xs) zero h = absurd (omega arith)
drop-length (x ∷ xs) (suc k) h = drop-length xs k (omega arith)

seek-contains :
    (xs : List Text) (j : ℕ) (ys : List Text) (k left : ℕ) (flag : Bool) (x : Text)
    → get_elem? xs j ≡ some x
    → k + left ≡ length ys
    → seek xs j ys k left flag ≡ some (flag || contains (drop k ys) x)
unfolding seek contains
seek-contains xs j ys k zero flag x e h = rw (drop-length ys k (omega arith)) (ground arith)
seek-contains xs j ys k (suc left) flag x e h =
    let (y, at, split) = found ys k (omega arith) in
    rw (seek, e, at, split)
      (seek-contains xs j ys (suc k) left (flag || text_eq x y) x e (omega arith)
        ∙ ground (arith, text_eq_comm x y))

compare-meets :
    (xs : List Text) (j left : ℕ) (ys : List Text) (flag : Bool)
    → j + left ≡ length xs
    → compare xs j left (some (length ys)) ys flag ≡ some (flag || meets (drop j xs) ys)
unfolding compare meets
compare-meets xs j zero ys flag h = rw (drop-length xs j (omega arith)) (ground arith)
compare-meets xs j (suc left) ys flag h =
    let (x, at, split) = found xs j (omega arith) in
    rw (compare, seek-contains xs j ys 0 (length ys) flag x at (omega arith), split)
      (compare-meets xs (suc j) left ys (flag || contains ys x) (omega arith) ∙ ground arith)

-- The counts of a transaction are the lengths of its lists.
pub record Counted (t : TransactionStruct) : Type 0 where
  pub ins : t.inputscount ≡ some (length t.inputs)
  pub outs : t.outputcount ≡ some (length t.outputs)

all-meets :
    (xs ys : List Text)
    → compare_all (some (length xs)) xs (some (length ys)) ys ≡ some (meets xs ys)
all-meets xs ys = compare-meets xs 0 (length xs) ys false (omega arith)

or_else-or : (a b : Bool) → or_else (some a) (some b) ≡ some (a || b)
or_else-or true b = refl
or_else-or false b = refl

-- The flag of two transactions with counts is the test of the distributed node.
pub flag_of-depends :
    (t u : TransactionStruct) → Counted t → Counted u → flag_of t u ≡ some (depends t u)
unfolding flag_of depends
flag_of-depends t u ct cu =
    rw
      (
        ct.ins,
        ct.outs,
        cu.ins,
        cu.outs,
        all-meets t.inputs u.outputs,
        all-meets t.outputs u.inputs,
        all-meets t.outputs u.outputs,
        or_else-or (meets t.outputs u.inputs) (meets t.outputs u.outputs),
      )
      (or_else-or _ _)
