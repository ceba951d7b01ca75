-- ===== src/Parallel/Threads.antt =====
-- The threads of `create`, in whatever order they are listed.
use icsa_artifact.Base.{
  ℕ, zero, suc, ◌+◌, ◌<◌, ◌≡◌, refl, ◌∙◌, List, [], ◌∷◌, arith, if◌then◌else◌, inl, inr, Perm,
  ℕ_discrete, ◌==◌,
}
use mathlib.Core.List.{Permᴰ}
use mathlib.Core.Logic.{∥∥₁_elim}
use native.Mathlib.Nat.{ℕ_set}
use icsa_artifact.Dag.Create.{AllListed, Listed}

-- The threads, from the last one to the first.
abbrev pub countdown : ℕ → List ℕ
countdown zero = []
countdown (suc k) = k ∷ countdown k

abbrev pub total_of : (ℕ → ℕ) → List ℕ → ℕ
total_of f [] = 0
total_of f (x ∷ xs) = f x + total_of f xs

total_of-Permᴰ : (f : ℕ → ℕ) {xs ys : List ℕ} → Permᴰ xs ys → total_of f xs ≡ total_of f ys
total_of-Permᴰ f Permᴰ.nil = refl
total_of-Permᴰ f (Permᴰ.cons e p) = rw e (omega (arith, total_of-Permᴰ f p))
total_of-Permᴰ f (Permᴰ.swap e e') = rw (e, e') (omega arith)
total_of-Permᴰ f (Permᴰ.trans p q) = total_of-Permᴰ f p ∙ total_of-Permᴰ f q

pub total_of-Perm : (f : ℕ → ℕ) (xs ys : List ℕ) → Perm xs ys → total_of f xs ≡ total_of f ys
total_of-Perm f xs ys p = ∥∥₁_elim p (ℕ_set _ _) (total_of-Permᴰ f)

abbrev is_at : ℕ → ℕ → ℕ
is_at pid x = if pid == x then 1 else 0

Listed-of_total : (pid : ℕ) (xs : List ℕ) → 0 < total_of (is_at pid) xs → Listed pid xs
Listed-of_total pid [] h = omega arith
Listed-of_total pid (x ∷ xs) h = elim (ℕ_discrete pid x) [
  | yes same ↦ inl same
  | no other ↦ inr (Listed-of_total pid xs (ground arith))
]

total_of-countdown : (pid k : ℕ) → pid < k → 0 < total_of (is_at pid) (countdown k)
total_of-countdown pid zero h = omega arith
total_of-countdown pid (suc k) h = ground (arith, total_of-countdown pid k)

pub Perm-AllListed :
    (threads : ℕ) (order : List ℕ) → Perm order (countdown threads) → AllListed threads order
Perm-AllListed threads order p pid lt = Listed-of_total pid order (
    omega (
      arith,
      total_of-Perm (is_at pid) order (countdown threads) p,
      total_of-countdown pid threads lt,
    ))
