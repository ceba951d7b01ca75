-- ===== src/Components/Partition.antt =====
-- The transactions of a node: none twice, and all of the block.
use icsa_artifact.Base.{
  ℕ, zero, suc, ◌+◌, ◌*◌, ◌<◌, ◌≤◌, ◌≡◌, refl, ◌∙◌, subst, true, false, ◌==◌, arith, Bool-cases,
  inl, inr, List, [], ◌∷◌, ◌++◌, length, ℕ_discrete,
}
use icsa_artifact.Dag.{Matrix}
use icsa_artifact.Scheduler.{is_in}
use icsa_artifact.Scheduler.Ids.{DistinctBelow}
use icsa_artifact.Scheduler.Share.{own_ids, FreshIds}
use icsa_artifact.Components.{
  find_root, add_to, number_components, group_all, enough, joined, connected_components,
}
use icsa_artifact.Components.Groups.{Groups, members, has_key, DistinctKeys, Sorted, add_to-Sorted}
use icsa_artifact.Components.Roots.{Root, Root-unique, Ranked, find-Found}
use icsa_artifact.Components.Loops.{joined-Ranked}
use icsa_artifact.Components.Closed.{
  set_followers, is_in-append, grouped, root_of, tail_members, root_of-Root,
}

DistinctBelow-append :
    (n : ℕ) (xs ys : List ℕ)
    → DistinctBelow n xs
    → DistinctBelow n ys
    → ((x : ℕ) → is_in xs x ≡ true → is_in ys x ≡ false)
    → DistinctBelow n (xs ++ ys)
unfolding is_in
DistinctBelow-append n [] ys d e apart = e
DistinctBelow-append n (x ∷ xs) ys (below, fresh, d) e apart = (
  below,
  is_in-append xs ys x ∙ ground (arith, fresh, apart x),
  DistinctBelow-append n xs ys d e (λ z h. ground (arith, apart z)),
)

-- Every group lists different numbers below `n`.
abbrev EachDistinct : ℕ → Groups → Type 0
EachDistinct n [] = Unit
EachDistinct n ((k, xs) ∷ groups) = DistinctBelow n xs × EachDistinct n groups

add_to-EachDistinct :
    (n root i : ℕ) (groups : Groups)
    → i < n
    → is_in (members groups root) i ≡ false
    → EachDistinct n groups
    → EachDistinct n (add_to root i groups)
unfolding add_to is_in
add_to-EachDistinct n root i [] below fresh e = ((below, refl, tt), tt)
add_to-EachDistinct n root i ((k, xs) ∷ groups) below fresh (d, e) = elim (Bool-cases (k == root)) [
  | inl same ↦
      let not_there : is_in xs i ≡ false = ground (arith, fresh, same) in
      rw same (
        DistinctBelow-append n xs (i ∷ []) d (below, refl, tt)
            (λ x h. elim (ℕ_discrete i x) [
              | yes e' ↦ absurd (ground (arith, subst (λ z. is_in xs z ≡ false) e' not_there))
              | no ne ↦ ground arith
            ]),
        e,
      )
  | inr other ↦
      rw other (d, add_to-EachDistinct n root i groups below (ground (arith, fresh, other)) e)
]

FreshIds-number :
    (follower : ℕ → ℕ) (processed : List ℕ) (comp_id : ℕ) (groups : Groups)
    → ((x : ℕ) → comp_id ≤ x → is_in processed x ≡ false)
    → FreshIds processed (set_followers follower (number_components comp_id groups))
unfolding number_components is_in
FreshIds-number follower processed comp_id [] above = tt
FreshIds-number follower processed comp_id ((k, xs) ∷ groups) above = (
  above comp_id (omega arith),
  FreshIds-number follower (comp_id ∷ processed) (comp_id + 1) groups
      (λ x h. ground (arith, above x)),
)

module _ (n : ℕ) (root : ℕ → ℕ) (node_id : ℕ) (follower : ℕ → ℕ) where
  abbrev Rooted : Groups → Type 0
  Rooted groups = (key x : ℕ) → is_in (members groups key) x ≡ true → root x ≡ key

  tail_Rooted :
      (k : ℕ) (xs : List ℕ) (groups : Groups)
      → has_key groups k ≡ false
      → Rooted ((k, xs) ∷ groups)
      → Rooted groups
  unfolding is_in
  tail_Rooted k xs groups fresh r key x h =
      ground (arith, r key x, tail_members k xs groups fresh key x)

  head_Rooted :
      (k : ℕ) (xs : List ℕ) (groups : Groups) (x : ℕ)
      → Rooted ((k, xs) ∷ groups)
      → is_in xs x ≡ true
      → root x ≡ k
  head_Rooted k xs groups x r h =
      let test : (k == k) ≡ true = ground arith in ground (arith, r k x, test)

  own_has_key :
      (comp_id : ℕ) (groups : Groups) (x : ℕ)
      → DistinctKeys groups
      → Rooted groups
      → is_in (own_ids node_id (set_followers follower (number_components comp_id groups))) x ≡ true
      → has_key groups (root x) ≡ true
  unfolding number_components is_in
  own_has_key comp_id [] x d r h = h
  own_has_key comp_id ((k, xs) ∷ groups) x (fresh, d) r h = ground (
    arith,
    is_in-append xs
        (own_ids node_id (set_followers follower (number_components (comp_id + 1) groups))) x,
    head_Rooted k xs groups x r,
    own_has_key (comp_id + 1) groups x d (tail_Rooted k xs groups fresh r),
  )

  own-DistinctBelow :
      (comp_id : ℕ) (groups : Groups)
      → DistinctKeys groups
      → EachDistinct n groups
      → Rooted groups
      → DistinctBelow n
          (own_ids node_id (set_followers follower (number_components comp_id groups)))
  unfolding number_components
  own-DistinctBelow comp_id [] d e r = tt
  own-DistinctBelow comp_id ((k, xs) ∷ groups) (fresh, d) (here, e) r =
      let later = tail_Rooted k xs groups fresh r in
      let rest = own-DistinctBelow (comp_id + 1) groups d e later in
      elim (Bool-cases (node_id == follower comp_id)) [
        | inr other ↦ rw other rest
        | inl own ↦ rw own (
            DistinctBelow-append n xs _ here rest λ x h. ground (
              arith,
              head_Rooted k xs groups x r,
              own_has_key (comp_id + 1) groups x d later,
              fresh,
            ))
      ]

group_all-EachDistinct :
    (n fuel i left b : ℕ) {p rank : ℕ → ℕ} (root : ℕ → ℕ) (groups : Groups)
    → Ranked p rank b
    → b < fuel
    → i + left ≤ n
    → ((x : ℕ) → Root p (root x) x)
    → Sorted root i groups
    → EachDistinct n groups
    → EachDistinct n (group_all fuel i left p groups)
unfolding group_all
group_all-EachDistinct n fuel i zero b root groups k h le roots s e = e
group_all-EachDistinct n fuel i (suc left) b {p} root groups k h le roots s e =
    let f = find-Found fuel i k (omega arith) in
    let r = (find_root fuel i p).0 in
    let found : r ≡ root i = Root-unique f.root (roots i) in
    group_all-EachDistinct n fuel (i + 1) left b root (add_to r i groups) f.ranked h (omega arith)
      (λ x. f.keeps (roots x)) (add_to-Sorted root r i groups found s)
      (add_to-EachDistinct n r i groups (omega arith) (ground (arith, s.member r i)) e)

module _ (m : Matrix) (node_id : ℕ) (follower : ℕ → ℕ) where
  pub components-FreshIds : FreshIds [] (set_followers follower (connected_components m))
  unfolding connected_components is_in
  components-FreshIds = FreshIds-number follower [] 0 _ (λ x h. refl)

  each-DistinctBelow :
      EachDistinct (length m) (group_all (enough m) 0 (length m) (joined m).parent [])
  unfolding is_in
  each-DistinctBelow =
      group_all-EachDistinct (length m) (enough m) 0 (length m) (length m * length m) (root_of m) []
        (joined-Ranked m) (omega arith) (omega arith) (root_of-Root m)
        (record { member = λ key x. ground arith; distinct = tt }) tt

  pub components-DistinctBelow :
      DistinctBelow (length m) (own_ids node_id (set_followers follower (connected_components m)))
  unfolding connected_components
  components-DistinctBelow =
      own-DistinctBelow (length m) (root_of m) node_id follower 0 _ (grouped m).distinct
        each-DistinctBelow (λ key x h. ground (arith, (grouped m).member key x))
