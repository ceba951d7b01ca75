-- ===== src/Dag/Conflict.antt =====
-- What a conflict between two transactions is, apart from the loops that look for one.
use icsa_artifact.Base.{
  ◌≡◌, refl, ◌↔◌, inl, inr, true, List, [], ◌∷◌, arith, Bool-cases, sym, subst,
}
use icsa_artifact.Text.{Text, text_eq, text_eq_sound, text_eq_iff}
use icsa_artifact.Dag.{TransactionStruct, contains, meets, depends}

-- An address of a list.
pub data Has (x : Text) : List Text → Type 0 where
  first : {y : Text} {ys : List Text} → x ≡ y → Has x (y ∷ ys)
  later : {y : Text} {ys : List Text} → Has x ys → Has x (y ∷ ys)

-- Two transactions conflict over an address that one of them writes.
pub data Conflict (t u : TransactionStruct) : Type 0 where
  read_write : (x : Text) → Has x t.inputs → Has x u.outputs → Conflict t u
  write_read : (x : Text) → Has x t.outputs → Has x u.inputs → Conflict t u
  write_write : (x : Text) → Has x t.outputs → Has x u.outputs → Conflict t u

pub Has-of_contains : (ys : List Text) (x : Text) → contains ys x ≡ true → Has x ys
unfolding contains
Has-of_contains [] x h = cc
Has-of_contains (y ∷ ys) x h = elim (Bool-cases (text_eq y x)) [
  | inl same ↦ first (sym (text_eq_sound y x same))
  | inr other ↦ later (Has-of_contains ys x (ground arith))
]

pub contains_of_Has : {x : Text} {ys : List Text} → Has x ys → contains ys x ≡ true
unfolding contains
contains_of_Has {x} (first {y} e) = ground (arith, text_eq_iff y x)
contains_of_Has (later {ys} h) = ground (arith, contains_of_Has h)

-- A common address.
record Shared (xs ys : List Text) : Type 0 where
  address : Text
  left : Has address xs
  right : Has address ys

Shared-of_meets : (xs ys : List Text) → meets xs ys ≡ true → Shared xs ys
unfolding meets
Shared-of_meets [] ys h = cc
Shared-of_meets (x ∷ xs) ys h = elim (Bool-cases (contains ys x)) [
  | inl found ↦ record { address = x; left = first refl; right = Has-of_contains ys x found }
  | inr none_here ↦
      let s = Shared-of_meets xs ys (ground arith) in
      record { address = s.address; left = later s.left; right = s.right }
]

meets_of_Has : {x : Text} {ys xs : List Text} → Has x xs → Has x ys → meets xs ys ≡ true
unfolding meets
meets_of_Has {ys} (first e) r = rw (subst (λ z. contains ys z ≡ true) e (contains_of_Has r))
meets_of_Has (later h) r = ground (arith, meets_of_Has h r)

Conflict-of_depends : (t u : TransactionStruct) → depends t u ≡ true → Conflict t u
unfolding depends
Conflict-of_depends t u h = elim (Bool-cases (meets t.inputs u.outputs)) [
  | inl rw' ↦ let s = Shared-of_meets _ _ rw' in read_write s.address s.left s.right
  | inr no_rw ↦ elim (Bool-cases (meets t.outputs u.inputs)) [
    | inl wr ↦ let s = Shared-of_meets _ _ wr in write_read s.address s.left s.right
    | inr no_wr ↦
        let s = Shared-of_meets t.outputs u.outputs (ground arith) in
        write_write s.address s.left s.right
  ]
]

depends_of_Conflict : {t u : TransactionStruct} → Conflict t u → depends t u ≡ true
unfolding depends
depends_of_Conflict (read_write x l r) = ground (arith, meets_of_Has l r)
depends_of_Conflict (write_read x l r) = ground (arith, meets_of_Has l r)
depends_of_Conflict (write_write x l r) = ground (arith, meets_of_Has l r)

pub depends_iff : (t u : TransactionStruct) → (depends t u ≡ true) ↔ Conflict t u
depends_iff t u = (Conflict-of_depends t u, depends_of_Conflict)
