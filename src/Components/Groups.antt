-- ===== src/Components/Groups.antt =====
-- The groups of transactions by their roots.
use icsa_artifact.Base.{
  ℕ, zero, suc, ◌+◌, ◌<◌, ◌≡◌, refl, Bool, false, ◌||◌, ◌&&◌, ◌==◌, ltb, if◌then◌else◌, arith,
  Bool-cases, inl, inr, List, [], ◌∷◌, ◌++◌,
}
use icsa_artifact.Scheduler.{is_in}
use icsa_artifact.Components.{find_root, add_to, group_all}
use icsa_artifact.Components.Roots.{Root, Root-unique, Ranked, find-Found}

abbrev pub Groups : Type 0
Groups = List (ℕ × List ℕ)

-- The group of a key, the first in the list.
abbrev pub members : Groups → ℕ → List ℕ
members [] key = []
members ((k, xs) ∷ groups) key = if k == key then xs else members groups key

abbrev pub has_key : Groups → ℕ → Bool
has_key [] key = false
has_key ((k, xs) ∷ groups) key = k == key || has_key groups key

-- No key twice.
abbrev pub DistinctKeys : Groups → Type 0
DistinctKeys [] = Unit
DistinctKeys ((k, xs) ∷ groups) = (has_key groups k ≡ false) × DistinctKeys groups

is_in-snoc : (xs : List ℕ) (i x : ℕ) → is_in (xs ++ (i ∷ [])) x ≡ (is_in xs x || i == x)
unfolding is_in
is_in-snoc [] i x = ground arith
is_in-snoc (y ∷ ys) i x = ground (arith, is_in-snoc ys i x)

is_in-members-add_to :
    (root i key x : ℕ) (groups : Groups)
    → is_in (members (add_to root i groups) key) x
      ≡ (is_in (members groups key) x || (root == key && i == x))
unfolding add_to is_in
is_in-members-add_to root i key x [] = ground arith
is_in-members-add_to root i key x ((k, xs) ∷ groups) =
    ground (arith, is_in-snoc xs i x, is_in-members-add_to root i key x groups)

has_key-add_to :
    (root i key : ℕ) (groups : Groups)
    → has_key (add_to root i groups) key ≡ (has_key groups key || root == key)
unfolding add_to
has_key-add_to root i key [] = ground arith
has_key-add_to root i key ((k, xs) ∷ groups) = ground (arith, has_key-add_to root i key groups)

add_to-DistinctKeys :
    (root i : ℕ) (groups : Groups) → DistinctKeys groups → DistinctKeys (add_to root i groups)
unfolding add_to
add_to-DistinctKeys root i [] d = (refl, tt)
add_to-DistinctKeys root i ((k, xs) ∷ groups) (fresh, d) = elim (Bool-cases (k == root)) [
  | inl same ↦ rw same (fresh, d)
  | inr other ↦
      rw other
        (ground (arith, fresh, has_key-add_to root i k groups), add_to-DistinctKeys root i groups d)
]

-- The groups hold each of the first `k` numbers in the group of its root.
pub record Sorted (root : ℕ → ℕ) (k : ℕ) (groups : Groups) : Type 0 where
  pub member : (key x : ℕ) → is_in (members groups key) x ≡ (ltb x k && root x == key)
  pub distinct : DistinctKeys groups

pub add_to-Sorted :
    (root : ℕ → ℕ) (r i : ℕ) (groups : Groups)
    → r ≡ root i
    → Sorted root i groups
    → Sorted root (i + 1) (add_to r i groups)
add_to-Sorted root r i groups found s = record {
  member = λ key x. ground (arith, found, is_in-members-add_to r i key x groups, s.member key x);
  distinct = add_to-DistinctKeys r i groups s.distinct;
}

pub group_all-Sorted :
    (fuel i left b : ℕ) {p rank : ℕ → ℕ} (root : ℕ → ℕ) (groups : Groups)
    → Ranked p rank b
    → b < fuel
    → ((x : ℕ) → Root p (root x) x)
    → Sorted root i groups
    → Sorted root (i + left) (group_all fuel i left p groups)
unfolding group_all
group_all-Sorted fuel i zero b root groups k h roots s = record {
  member = λ key x. ground (arith, s.member key x);
  distinct = s.distinct;
}
group_all-Sorted fuel i (suc left) b {p} root groups k h roots s =
    let f = find-Found fuel i k (omega arith) in
    let found : (find_root fuel i p).0 ≡ root i = Root-unique f.root (roots i) in
    let rest =
      group_all-Sorted fuel (i + 1) left b root (add_to (find_root fuel i p).0 i groups) f.ranked h
        (λ x. f.keeps (roots x)) (add_to-Sorted root _ i groups found s) in
    record { member = λ key x. ground (arith, rest.member key x); distinct = rest.distinct }
