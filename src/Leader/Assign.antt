-- ===== src/Leader/Assign.antt =====
-- The assignment of components to followers.
use icsa_artifact.Base.{
  ℕ, zero, suc, ◌+◌, ◌%◌, ◌<◌, ◌≡◌, refl, ◌∙◌, ap, subst, true, none, some, List, [], ◌∷◌, ◌++◌,
  arith, lt→ltb, length, get_elem?,
}
use icsa_artifact.Base.Int.{ℤ}
use icsa_artifact.Leader.{
  Entry, Leader, healthy_ids, follower_at, assign_from, assign_with, assign_followers,
}

in_range : (ids : List ℤ) (i : ℕ) → i < length ids → (id : ℤ) × (get_elem? ids i ≡ some id)
in_range [] i h = absurd (omega arith)
in_range (x ∷ xs) zero h = (x, refl)
in_range (x ∷ xs) (suc i) h = in_range xs i (omega arith)

abbrev with_follower : ℤ → Entry → Entry
with_follower id e = record e { assigned_follower = id }

some_inj : {x y : Entry} → some x ≡ some y → x ≡ y
some_inj {x} h = ap (λ o. elim o as (λ _. Entry) [ none ↦ x | some z ↦ z ]) h

-- The entries from a table's index `i` on: each follower is the one that the round gives, and
-- nothing else changed.
record Assigned (ids : List ℤ) (active i : ℕ) (es es' : List Entry) : Type 0 where
  pub size : length es' ≡ length es
  pub each :
      (j : ℕ) (e : Entry)
      → get_elem? es j ≡ some e
      → (id : ℤ) × (follower_at ids active (i + j) ≡ some id)
        × (get_elem? es' j ≡ some (record e { assigned_follower = id }))

each_of :
    (ids : List ℤ) (active i : ℕ) (e : Entry) (es es' : List Entry) (id : ℤ)
    → follower_at ids active i ≡ some id
    → Assigned ids active (suc i) es es'
    → (j : ℕ) (x : Entry) → get_elem? (e ∷ es) j ≡ some x
    → (found : ℤ) × (follower_at ids active (i + j) ≡ some found)
      × (get_elem? (record e { assigned_follower = id } ∷ es') j
          ≡ some (record x { assigned_follower = found }))
each_of ids active i e es es' id at a zero x h =
    let z : i + 0 ≡ i = omega arith in
    (id, rw z at, ap (λ y. some (with_follower id y)) (some_inj h))
each_of ids active i e es es' id at a (suc j) x h =
    let z : i + suc j ≡ suc i + j = omega arith in rw z (a.each j x h)

first-Assigned :
    (ids : List ℤ) (active i : ℕ) (e : Entry) (es es' : List Entry) (id : ℤ)
    → follower_at ids active i ≡ some id
    → Assigned ids active (suc i) es es'
    → Assigned ids active i (e ∷ es) (record e { assigned_follower = id } ∷ es')
first-Assigned ids active i e es es' id at a = record {
  size = ap suc a.size;
  each = each_of ids active i e es es' id at a;
}

assign_done :
    (ids : List ℤ) (i : ℕ) (es : List Entry)
    → 0 < length ids
    → (es' : List Entry) × (assign_from ids (length ids) i es ≡ some es')
      × Assigned ids (length ids) i es es'
unfolding assign_from
assign_done ids i [] some_id = ([], refl, record { size = refl; each = λ j e h. ground (arith, h) })
assign_done ids i (e ∷ es) some_id =
    let below : i % length ids < length ids = grind arith in
    let (id, at) = in_range ids (i % length ids) below in
    let (es', runs, a) = assign_done ids (suc i) es some_id in
    (
      record e { assigned_follower = id } ∷ es',
      rw (assign_from, at, runs) refl,
      first-Assigned ids (length ids) i e es es' id at a,
    )

-- If no ids are left from before, the numbers of the healthy members can be read and there is one,
-- then `assignFollowers` answers `true`, and gives the component at each index `j` of the table the
-- id at `j` modulo the number of healthy members, with nothing else of the component changed.
pub assign_round_robin :
    (l : Leader) (ids : List ℤ)
    → l.healthy_member_ids ≡ []
    → healthy_ids l.member_list ≡ some ids
    → 0 < length ids
    → (l' : Leader) × (assign_followers l ≡ some (true, l'))
      × (length l'.table ≡ length l.table)
      × ((j : ℕ) (e : Entry)
          → get_elem? l.table j ≡ some e
          → (id : ℤ) × (get_elem? ids (j % length ids) ≡ some id)
            × (get_elem? l'.table j ≡ some (record e { assigned_follower = id })))
unfolding assign_followers assign_with
assign_round_robin l ids clear read some_id =
    let (table', runs, a) = assign_done ids 0 l.table some_id in
    let positive = lt→ltb 0 (length ids) some_id in
    (
      record l { healthy_member_ids = ids; active_followers = length ids; table = table' },
      rw (assign_followers, read)
          (ap (λ left. assign_with (left ++ ids) l) clear ∙ rw (assign_with, positive, runs) refl),
      a.size,
      λ j e h.
          let z : 0 + j ≡ j = omega arith in
          subst
            (λ k.
              (id : ℤ) × (follower_at ids (length ids) k ≡ some id)
              × (get_elem? table' j ≡ some (record e { assigned_follower = id })))
            z (a.each j e h),
    )
