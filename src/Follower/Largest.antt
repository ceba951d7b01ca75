-- ===== src/Follower/Largest.antt =====
-- The largest block number of a term.
use icsa_artifact.Base.{
  ◌≡◌, refl, sym, ◌∙◌, ap, ◌⊎◌, inl, inr, some, Option-cases, List, [], ◌∷◌, arith, Bool-cases,
}
use icsa_artifact.Base.Int.{ℤ, negsuc, ltb_ℤ, ◌≤ℤ◌}
use icsa_artifact.Text.{Text}
use icsa_artifact.Follower.{block_number, max_ℤ, largest_from, get_largest_block_number}

-- A path of a list that has a block number.
pub data Numbered (n : ℤ) : List Text → Type 0 where
  first : {p : Text} {ps : List Text} → block_number p ≡ some n → Numbered n (p ∷ ps)
  later : {p : Text} {ps : List Text} → Numbered n ps → Numbered n (p ∷ ps)

le-max_left : (a b : ℤ) → a ≤ℤ max_ℤ a b
le-max_left a b = ground arith

le-max_right : (a b : ℤ) → b ≤ℤ max_ℤ a b
le-max_right a b = ground arith

max_cases : (a b : ℤ) → (max_ℤ a b ≡ a) ⊎ (max_ℤ a b ≡ b)
max_cases a b = elim (Bool-cases (ltb_ℤ a b)) [
  | inl less ↦ inr (rw less refl)
  | inr not' ↦ inl (rw not' refl)
]

le_trans : (a b c : ℤ) → a ≤ℤ b → b ≤ℤ c → a ≤ℤ c
le_trans a b c h k = omega arith

le-largest_from : (start : ℤ) (paths : List Text) → start ≤ℤ largest_from start paths
unfolding largest_from
le-largest_from start [] = omega arith
le-largest_from start (p ∷ ps) = elim (Option-cases (block_number p)) [
  | inl bad ↦ rw (largest_from, bad) (le-largest_from start ps)
  | inr (n, good) ↦
      rw (largest_from, good)
        (le_trans start (max_ℤ start n) (largest_from (max_ℤ start n) ps) (le-max_left start n)
          (le-largest_from (max_ℤ start n) ps))
]

numbered-le : (start n : ℤ) (paths : List Text) → Numbered n paths → n ≤ℤ largest_from start paths
unfolding largest_from
numbered-le start n [] h = elim h [ ]
numbered-le start n (p ∷ ps) (first e) =
    rw (largest_from, e)
      (le_trans n (max_ℤ start n) (largest_from (max_ℤ start n) ps) (le-max_right start n)
        (le-largest_from (max_ℤ start n) ps))
numbered-le start n (p ∷ ps) (later h) = elim (Option-cases (block_number p)) [
  | inl bad ↦ rw (largest_from, bad) (numbered-le start n ps h)
  | inr (k, good) ↦ rw (largest_from, good) (numbered-le (max_ℤ start k) n ps h)
]

one_of :
    (start : ℤ) (paths : List Text)
    → (largest_from start paths ≡ start) ⊎ Numbered (largest_from start paths) paths
unfolding largest_from
one_of start [] = inl refl
one_of start (p ∷ ps) = elim (Option-cases (block_number p)) [
  | inl bad ↦
      rw (largest_from, bad) (elim (one_of start ps) [ inl e ↦ inl e | inr h ↦ inr (later h) ])
  | inr (n, good) ↦
      rw (largest_from, good)
        (elim (one_of (max_ℤ start n) ps) [
          | inr h ↦ inr (later h)
          | inl e ↦ elim (max_cases start n) [
            | inl same ↦ inl (e ∙ same)
            | inr new ↦ inr (first (good ∙ ap some (sym (e ∙ new))))
          ]
        ])
]

-- `getLargestBlockNumber` is at least the number of every path that has one, and is itself the
-- number of a path, or else -1.
pub largest_is_max :
    (paths : List Text)
    → let largest = get_largest_block_number paths in
      ((n : ℤ) → Numbered n paths → n ≤ℤ largest) × ((largest ≡ negsuc 0) ⊎ Numbered largest paths)
unfolding get_largest_block_number
largest_is_max paths = (λ n. numbered-le (negsuc 0) n paths, one_of (negsuc 0) paths)
