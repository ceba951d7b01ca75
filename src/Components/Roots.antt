-- ===== src/Components/Roots.antt =====
-- The trees of a disjoint-set forest: which root a number has, and what path compression keeps.
use icsa_artifact.Base.{
  ℕ, zero, suc, ◌+◌, ◌<◌, ◌≤◌, ◌≡◌, ◌≢◌, refl, sym, ◌∙◌, subst, true, false, ◌==◌, arith,
  ℕ_discrete,
}
use icsa_artifact.Workers.{update}
use icsa_artifact.Components.{compress, find_root}

-- `r` is the root of the tree of a number.
pub data Root (p : ℕ → ℕ) (r : ℕ) : ℕ → Type 0 where
  at : {x : ℕ} → p x ≡ x → x ≡ r → Root p r x
  up : {x : ℕ} → p x ≢ x → Root p r (p x) → Root p r x

pub Root-unique : {p : ℕ → ℕ} {r s x : ℕ} → Root p r x → Root p s x → r ≡ s
Root-unique (at a e) (at b f) = sym e ∙ f
Root-unique (at a e) (up n h) = absurd (n a)
Root-unique (up n h) (at b f) = absurd (n b)
Root-unique (up n h) (up n' h') = Root-unique h h'

pub Root-top : {p : ℕ → ℕ} {r x : ℕ} → Root p r x → p r ≡ r
Root-top {p} (at a e) = subst (λ z. p z ≡ z) e a
Root-top (up n h) = Root-top h

-- Ranks rise from a number to its parent, and none is above `b`.
pub record Ranked (p rank : ℕ → ℕ) (b : ℕ) : Type 0 where
  pub rises : (x : ℕ) → p x ≢ x → rank x < rank (p x)
  pub low : (x : ℕ) → rank x ≤ b

pub Root-rank :
    {p rank : ℕ → ℕ} {b r x : ℕ} → Ranked p rank b → Root p r x → x ≢ r → rank x < rank r
Root-rank k (at a e) ne = absurd (ne e)
Root-rank {p} {r = r} k (up {x} n h) ne = elim (ℕ_discrete (p x) r) [
  | yes e ↦ ground (arith, k.rises x n)
  | no ne' ↦ omega (arith, k.rises x n, Root-rank k h ne')
]

-- The parent of `x` becomes its root.
module _ {q rank : ℕ → ℕ} {b x r : ℕ} (k : Ranked q rank b) (h : Root q r x) where
  compress-Ranked : Ranked (update q x r) rank b
  compress-Ranked = record { rises = λ y ne. ground (arith, k.rises y, Root-rank k h); low = k.low }

  root_of_x : {s : ℕ} → Root q s x → Root (update q x r) s x
  root_of_x g = elim (ℕ_discrete x r) [
    | yes e ↦ at (ground arith) (e ∙ Root-unique h g)
    | no ne ↦ up (ground arith) (at (ground (arith, Root-top h)) (ground (arith, Root-unique h g)))
  ]

  at_x : {s y : ℕ} → x ≡ y → Root q s y → Root (update q x r) s y
  at_x {s} e g =
      subst (λ z. Root (update q x r) s z) e (root_of_x (subst (λ z. Root q s z) (sym e) g))

  compress-Root : {s y : ℕ} → Root q s y → Root (update q x r) s y
  compress-Root (at {x = y} a e) = elim (ℕ_discrete x y) [
    | yes same ↦ at_x same (at a e)
    | no ne ↦ at (ground arith) e
  ]
  compress-Root {s} (up {x = y} n g) = elim (ℕ_discrete x y) [
    | yes same ↦ at_x same (up n g)
    | no ne ↦
        let unchanged : update q x r y ≡ q y = ground arith in
        up (ground arith) (subst (λ z. Root (update q x r) s z) (sym unchanged) (compress-Root g))
  ]

-- What `find` does.
pub record Found (p rank : ℕ → ℕ) (b x : ℕ) (result : ℕ × (ℕ → ℕ)) : Type 0 where
  pub root : Root p result.0 x
  pub keeps : {s y : ℕ} → Root p s y → Root result.1 s y
  pub ranked : Ranked result.1 rank b

find_stop : (fuel x : ℕ) (p : ℕ → ℕ) → p x ≡ x → find_root (suc fuel) x p ≡ (x, p)
unfolding find_root
find_stop fuel x p e = let test : (p x == x) ≡ true = ground arith in rw test

find_up :
    (fuel x : ℕ) (p : ℕ → ℕ)
    → p x ≢ x
    → find_root (suc fuel) x p ≡ compress x (find_root fuel (p x) p)
unfolding find_root
find_up fuel x p ne = let test : (p x == x) ≡ false = ground arith in rw test

-- With fuel above the ranks that are left, `find` returns the root, and every number keeps its root.
pub find-Found :
    (fuel x : ℕ) {p rank : ℕ → ℕ} {b : ℕ}
    → Ranked p rank b
    → b < fuel + rank x
    → Found p rank b x (find_root fuel x p)
find-Found zero x k h = absurd (omega (arith, k.low x))
find-Found (suc fuel) x {p} {rank} {b} k h = elim (ℕ_discrete (p x) x) [
  | yes e ↦ rw (find_stop fuel x p e) (record { root = at e refl; keeps = λ g. g; ranked = k })
  | no ne ↦
      let f = find-Found fuel (p x) k (omega (arith, k.rises x ne)) in
      rw (find_up fuel x p ne) (record {
        root = up ne f.root;
        keeps = λ g. compress-Root f.ranked (f.keeps (up ne f.root)) (f.keeps g);
        ranked = compress-Ranked f.ranked (f.keeps (up ne f.root));
      })
]
