-- ===== src/Components/Closed.antt =====
-- The components of a block and the edges of its matrix.
use icsa_artifact.Base.{
  ℕ, ◌+◌, ◌<◌, ◌≡◌, ◌≢◌, refl, sym, ◌∙◌, true, false, ◌||◌, ◌==◌, if◌then◌else◌, arith, Bool-cases,
  ◌⊎◌, ◌*◌, inl, inr, List, [], ◌∷◌, ◌++◌, length, ℕ_discrete,
}
use icsa_artifact.Dag.{Matrix, entry}
use icsa_artifact.Scheduler.{Component, is_in}
use icsa_artifact.Scheduler.Share.{own_ids}
use icsa_artifact.Components.{
  find_root, number_components, group_all, enough, joined, connected_components,
}
use icsa_artifact.Components.Roots.{Root, Root-unique, find-Found}
use icsa_artifact.Components.Loops.{joined-Ranked, joined-Same, joins}
use icsa_artifact.Components.Groups.{
  Groups, members, has_key, DistinctKeys, Sorted, group_all-Sorted,
}

-- A follower is assigned to each component, by its id.
abbrev pub set_followers : (ℕ → ℕ) → List Component → List Component
set_followers follower [] = []
set_followers follower (c ∷ cs) =
    record c { assigned_follower = follower c.comp_id } ∷ set_followers follower cs

pub is_in-append : (xs ys : List ℕ) (x : ℕ) → is_in (xs ++ ys) x ≡ (is_in xs x || is_in ys x)
unfolding is_in
is_in-append [] ys x = refl
is_in-append (y ∷ xs) ys x = ground (arith, is_in-append xs ys x)

members_missing : (groups : Groups) (key : ℕ) → has_key groups key ≡ false → members groups key ≡ []
members_missing [] key h = refl
members_missing ((k, xs) ∷ groups) key h = ground (arith, members_missing groups key)

-- The groups behind the first one, whose key is not among theirs.
pub tail_members :
    (k : ℕ) (xs : List ℕ) (groups : Groups)
    → has_key groups k ≡ false
    → (key x : ℕ)
    → is_in (members groups key) x
      ≡ (if k == key then false else is_in (members ((k, xs) ∷ groups) key) x)
unfolding is_in
tail_members k xs groups fresh key x = elim (ℕ_discrete k key) [
  | yes e ↦
      let test : (k == key) ≡ true = ground arith in rw (test, ← e, members_missing groups k fresh)
  | no ne ↦ ground arith
]

-- Two numbers that every group has both or neither of are on the same node.
module _ (p i node_id : ℕ) (follower : ℕ → ℕ) where
  abbrev Together : Groups → Type 0
  Together groups = (key : ℕ) → is_in (members groups key) p ≡ is_in (members groups key) i

  head-Together :
      (k : ℕ) (xs : List ℕ) (groups : Groups)
      → Together ((k, xs) ∷ groups)
      → is_in xs p ≡ is_in xs i
  head-Together k xs groups t =
      let test : (k == k) ≡ true = ground arith in ground (arith, t k, test)

  tail-Together :
      (k : ℕ) (xs : List ℕ) (groups : Groups)
      → has_key groups k ≡ false
      → Together ((k, xs) ∷ groups)
      → Together groups
  unfolding is_in
  tail-Together k xs groups fresh t key =
      ground
        (arith, t key, tail_members k xs groups fresh key p, tail_members k xs groups fresh key i)

  own-Together :
      (comp_id : ℕ) (groups : Groups)
      → DistinctKeys groups
      → Together groups
      → is_in (own_ids node_id (set_followers follower (number_components comp_id groups))) p
        ≡ is_in (own_ids node_id (set_followers follower (number_components comp_id groups))) i
  unfolding number_components is_in
  own-Together comp_id [] d t = refl
  own-Together comp_id ((k, xs) ∷ groups) (fresh, d) t =
      let rest = own-Together (comp_id + 1) groups d (tail-Together k xs groups fresh t) in
      let here = head-Together k xs groups t in
      elim (Bool-cases (node_id == follower comp_id)) [
        | inl own ↦ rw own (is_in-append xs _ p ∙ rw (here, rest) (sym (is_in-append xs _ i)))
        | inr other ↦ rw other rest
      ]

module _ (m : Matrix) where
  -- The root of a transaction after the loops over the matrix.
  abbrev pub root_of : ℕ → ℕ
  root_of x = (find_root (enough m) x (joined m).parent).0

  pub root_of-Root : (x : ℕ) → Root (joined m).parent (root_of x) x
  root_of-Root x = (find-Found (enough m) x (joined-Ranked m) (omega arith)).root

  pub grouped :
      Sorted root_of (0 + length m) (group_all (enough m) 0 (length m) (joined m).parent [])
  unfolding is_in
  grouped =
      group_all-Sorted (enough m) 0 (length m) (length m * length m) root_of [] (joined-Ranked m)
        (omega arith) root_of-Root (record { member = λ key x. ground arith; distinct = tt })

  same_root : (p i : ℕ) → p < i → i < length m → joins m p i ≡ true → root_of p ≡ root_of i
  same_root p i above inside edge =
      let s = joined-Same m p i above inside edge in
      Root-unique (root_of-Root p) s.left ∙ Root-unique s.right (root_of-Root i)

-- Whatever followers the leader assigns to the components, the ends of an edge of the matrix, in
-- either direction, are both among a node's transactions or both not.
pub components_closed :
    (m : Matrix) (follower : ℕ → ℕ) (node_id p i : ℕ)
    → p < i
    → i < length m
    → (entry m p i ≢ 0) ⊎ (entry m i p ≢ 0)
    → let own = own_ids node_id (set_followers follower (connected_components m)) in
      is_in own p ≡ is_in own i
unfolding connected_components
components_closed m follower node_id p i above inside edge =
    own-Together p i node_id follower 0 _ (grouped m).distinct λ key. ground (
      arith,
      (grouped m).member key p,
      (grouped m).member key i,
      same_root m p i above inside joined_by,
    )
  where
    joined_by : joins m p i ≡ true
    joined_by = elim edge [ inl e ↦ ground arith | inr e ↦ ground arith ]
