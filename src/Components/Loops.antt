-- ===== src/Components/Loops.antt =====
-- The loops of `connectedComponents` over the matrix.
use icsa_artifact.Base.{
  ℕ, zero, suc, ◌+◌, ◌-◌, ◌*◌, ◌<◌, ◌≤◌, ◌≡◌, refl, Bool, true, not, ◌||◌, ◌==◌, if◌then◌else◌,
  arith, ℕ_discrete, Bool-cases, inl, inr, length, subst, sym,
}
use icsa_artifact.Dag.{Matrix, entry}
use icsa_artifact.Components.{Forest, unite, unite_row, unite_rows, enough, joined, singles}
use icsa_artifact.Components.Roots.{Ranked}
use icsa_artifact.Components.Unite.{Grows, Grows-refl, Grows-trans, Same, Grows-Same, unite-United}

pub raise : {p rank : ℕ → ℕ} {a b : ℕ} → a ≤ b → Ranked p rank a → Ranked p rank b
raise le k = record { rises = k.rises; low = λ x. omega (arith, k.low x) }

-- An edge in either direction.
abbrev pub joins : Matrix → ℕ → ℕ → Bool
joins m i j = not (entry m i j == 0) || not (entry m j i == 0)

-- What a part of the loops gives: `Covered` says which pairs it looks at.
record Part (m : Matrix) (Covered : ℕ → ℕ → Type 0) (p : ℕ → ℕ) (b : ℕ) (d : Forest) : Type 0 where
  grows : Grows p d.parent
  same : (i j : ℕ) → Covered i j → joins m i j ≡ true → Same d.parent i j
  ranked : Ranked d.parent d.rank b

module _ (m : Matrix) (fuel : ℕ) where
  step-Part :
      (i j b : ℕ) (d : Forest)
      → Ranked d.parent d.rank b
      → b < fuel
      → Part m
          (λ r c. (r ≡ i) × (c ≡ j))
          d.parent
          (b + 1)
          (if joins m i j then unite fuel i j d else d)
  step-Part i j b d k h = elim (Bool-cases (joins m i j)) [
    | inl edge ↦
        let u = unite-United fuel i j b d k h in
        rw edge (record {
          grows = u.grows;
          same = λ r c (e, f) t.
              subst (λ z. Same (unite fuel i j d).parent z c) (sym e)
                (subst (λ z. Same (unite fuel i j d).parent i z) (sym f) u.same);
          ranked = u.ranked;
        })
    | inr free ↦ rw free (record {
      grows = Grows-refl;
      same = λ r c (e, f) t. absurd (ground (arith, free));
      ranked = raise (omega arith) k;
    })
  ]

  row-Part :
      (i j left b : ℕ) (d : Forest)
      → Ranked d.parent d.rank b
      → b + left ≤ fuel
      → Part m
          (λ r c. (r ≡ i) × (j ≤ c) × (c < j + left))
          d.parent
          (b + left)
          (unite_row m fuel i j left d)
  unfolding unite_row
  row-Part i j zero b d k h = record {
    grows = Grows-refl;
    same = λ r c (e, lo, hi) t. absurd (omega arith);
    ranked = raise (omega arith) k;
  }
  row-Part i j (suc left) b d k h =
      let s = step-Part i j b d k (omega arith) in
      let rest = row-Part i (j + 1) left (b + 1) _ s.ranked (omega arith) in
      record {
        grows = Grows-trans s.grows rest.grows;
        same = λ r c (e, lo, hi) t. elim (ℕ_discrete c j) [
          | yes here ↦ Grows-Same rest.grows (s.same r c (e, here) t)
          | no later ↦ rest.same r c (e, omega arith, omega arith) t
        ];
        ranked = raise (omega arith) rest.ranked;
      }

  rows-Part :
      (n i left b : ℕ) (d : Forest)
      → Ranked d.parent d.rank b
      → b + left * n ≤ fuel
      → Part m
          (λ r c. (i ≤ r) × (r < i + left) × (r < c) × (c < n))
          d.parent
          (b + left * n)
          (unite_rows m fuel n i left d)
  unfolding unite_rows
  rows-Part n i zero b d k h = record {
    grows = Grows-refl;
    same = λ r c (lo, hi, above, in_row) t. absurd (omega arith);
    ranked = raise (omega arith) k;
  }
  rows-Part n i (suc left) b d k h =
      let s = row-Part i (i + 1) (n - (i + 1)) b d k (grind arith) in
      let rest = rows-Part n (i + 1) left (b + n) _ (raise (omega arith) s.ranked) (grind arith) in
      record {
        grows = Grows-trans s.grows rest.grows;
        same = λ r c (lo, hi, above, in_row) t. elim (ℕ_discrete r i) [
          | yes here ↦ Grows-Same rest.grows (s.same r c (here, omega arith, omega arith) t)
          | no later ↦ rest.same r c (omega arith, omega arith, above, in_row) t
        ];
        ranked = raise (grind arith) rest.ranked;
      }

module _ (m : Matrix) where
  joined-Part :
      Part m
        (λ r c. (0 ≤ r) × (r < 0 + length m) × (r < c) × (c < length m))
        singles.parent
        (0 + length m * length m)
        (joined m)
  unfolding joined
  joined-Part =
      rows-Part m (enough m) (length m) 0 (length m) 0 singles
        (record { rises = λ x h. absurd (h refl); low = λ x. omega arith }) (omega arith)

  pub joined-Ranked : Ranked (joined m).parent (joined m).rank (length m * length m)
  joined-Ranked = raise (omega arith) joined-Part.ranked

  -- Both ends of an edge have the same root after the loops.
  pub joined-Same :
      (i j : ℕ) → i < j → j < length m → joins m i j ≡ true → Same (joined m).parent i j
  joined-Same i j above inside edge =
      joined-Part.same i j (omega arith, omega arith, above, inside) edge
