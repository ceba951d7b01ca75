-- ===== src/Dag/Grid.antt =====
-- Entries of a square matrix: what a write changes.
use icsa_artifact.Base.{
  ℕ, zero, suc, ◌<◌, ◌≡◌, refl, ◌&&◌, List, [], ◌∷◌, arith, ltb, ◌==◌, if◌then◌else◌, length,
  get_or, set, length-set, replicate, length-replicate,
}
use icsa_artifact.Dag.{Matrix, entry, set_entry, zero_row}

module _ {ℓ} {A : Type ℓ} where
  pub get_or-set :
      (xs : List A) (i j : ℕ) (v d : A)
      → get_or (set xs i v) j d ≡ (if i == j && ltb i (length xs) then v else get_or xs j d)
  get_or-set [] i j v d = ground arith
  get_or-set (x ∷ xs) zero zero v d = ground arith
  get_or-set (x ∷ xs) zero (suc j) v d = ground arith
  get_or-set (x ∷ xs) (suc i) zero v d = ground arith
  get_or-set (x ∷ xs) (suc i) (suc j) v d = ground (arith, get_or-set xs i j v d)

  pub get_or-replicate : (n i : ℕ) (a d : A) → i < n → get_or (replicate n a) i d ≡ a
  get_or-replicate zero i a d h = absurd (omega arith)
  get_or-replicate (suc n) zero a d h = refl
  get_or-replicate (suc n) (suc i) a d h = get_or-replicate n i a d (omega arith)

-- An `n` by `n` matrix.
pub record IsSquare (n : ℕ) (m : Matrix) : Type 0 where
  pub height : length m ≡ n
  pub width : (i : ℕ) → i < n → length (get_or m i []) ≡ n

module _ (n : ℕ) (m : Matrix) (square : IsSquare n m) (i j v : ℕ) where
  pub set_entry-IsSquare : IsSquare n (set_entry m i j v)
  set_entry-IsSquare = record {
    height = omega (arith, length-set m i (set (get_or m i []) j v), square.height);
    width = λ k h. ground (
      arith,
      get_or-set m i k (set (get_or m i []) j v) [],
      length-set (get_or m i []) j v,
      square.width i,
      square.width k,
    );
  }

  pub entry-set_entry :
      (a b : ℕ)
      → i < n
      → j < n
      → entry (set_entry m i j v) a b ≡ (if i == a && j == b then v else entry m a b)
  entry-set_entry a b hi hj = ground (
    arith,
    square.height,
    square.width i,
    get_or-set m i a (set (get_or m i []) j v) [],
    get_or-set (get_or m i []) j b v 0,
  )

pub zeros-IsSquare : (n : ℕ) → IsSquare n (replicate n (zero_row n))
zeros-IsSquare n = record {
  height = length-replicate n (zero_row n);
  width = λ i h. rw (get_or-replicate n i (zero_row n) [] h) (length-replicate {A = ℕ} n 0);
}

pub get_or-zeros : (n j : ℕ) → get_or (zero_row n) j 0 ≡ 0
get_or-zeros zero j = refl
get_or-zeros (suc n) zero = refl
get_or-zeros (suc n) (suc j) = get_or-zeros n j

pub entry-zeros : (k n i j : ℕ) → entry (replicate k (zero_row n)) i j ≡ 0
entry-zeros zero n i j = refl
entry-zeros (suc k) n zero j = get_or-zeros n j
entry-zeros (suc k) n (suc i) j = entry-zeros k n i j
