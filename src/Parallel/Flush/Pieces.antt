-- ===== src/Parallel/Flush/Pieces.antt =====
-- The ranges of the threads make up the map.
use icsa_artifact.Base.{
  ℕ, zero, suc, ◌+◌, ◌-◌, ◌*◌, ◌≤◌, ◌<◌, ◌≡◌, refl, sym, ◌∙◌, ap, min, List, [], ◌∷◌, ◌++◌, none,
  some, arith, ◌⊎◌, inl, inr, length, take, drop, get_elem?, subst,
}
use mathlib.Core.List.{Permᴰ}
use mathlib.Core.List.Permᴰ
use icsa_artifact.Text.{Text}
use icsa_artifact.Contract.{Map}
use icsa_artifact.Serial.Run.{insert_all}
use icsa_artifact.Parallel.Flush.{chunk_size, first_entry, past_entry, insert_range}
use icsa_artifact.Parallel.Threads.{countdown}

next_entry :
    (xs : Map) (i : ℕ)
    → ((get_elem? xs i ≡ none) × (drop i xs ≡ []))
      ⊎ ((p : Text × Text) × (get_elem? xs i ≡ some p) × (drop i xs ≡ p ∷ drop (suc i) xs))
next_entry [] zero = inl (refl, refl)
next_entry [] (suc i) = inl (refl, refl)
next_entry (x ∷ xs) zero = inr (x, refl, refl)
next_entry (x ∷ xs) (suc i) = next_entry xs i

take-nil : (n : ℕ) → take {A = Text × Text} n [] ≡ []
take-nil zero = refl
take-nil (suc n) = refl

take-min : (xs : Map) (c : ℕ) → take (min c (length xs)) xs ≡ take c xs
take-min [] c = take-nil (min c 0) ∙ sym (take-nil c)
take-min (x ∷ xs) zero = let e : min 0 (length (x ∷ xs)) ≡ 0 = omega arith in rw e
take-min (x ∷ xs) (suc c) =
    let e : min (suc c) (length (x ∷ xs)) ≡ suc (min c (length xs)) = omega arith in
    rw e (ap (λ l. x ∷ l) (take-min xs c))

-- A piece after what comes before it.
take_piece :
    (xs : Map) (a c : ℕ)
    → take a xs ++ take (min (a + c) (length xs) - a) (drop a xs) ≡ take (a + c) xs
take_piece xs zero c =
    let e : min (0 + c) (length xs) - 0 ≡ min c (length xs) = omega arith in
    let e' : 0 + c ≡ c = omega arith in
    ap (λ k. take k xs) e ∙ take-min xs c ∙ ap (λ k. take k xs) (sym e')
take_piece [] (suc a) c = take-nil (min (suc a + c) 0 - suc a) ∙ sym (take-nil (suc a + c))
take_piece (x ∷ xs) (suc a) c =
    let e : min (suc a + c) (length (x ∷ xs)) - suc a ≡ min (a + c) (length xs) - a = omega arith in
    let e' : suc a + c ≡ suc (a + c) = omega arith in
    ap (λ k. x ∷ (take a xs ++ take k (drop a xs))) e
    ∙ ap (λ l. x ∷ l) (take_piece xs a c)
    ∙ ap (λ k. take k (x ∷ xs)) (sym e')

take_all : (xs : Map) (n : ℕ) → length xs ≤ n → take n xs ≡ xs
take_all [] n h = take-nil n
take_all (x ∷ xs) zero h = absurd (omega arith)
take_all (x ∷ xs) (suc n) h = ap (λ l. x ∷ l) (take_all xs n (omega arith))

append_swap : (xs ys zs : Map) → Permᴰ (xs ++ (ys ++ zs)) (ys ++ (xs ++ zs))
append_swap [] ys zs = Permᴰ.refl _
append_swap (x ∷ xs) ys zs =
    Permᴰ.trans (Permᴰ.cons refl (append_swap xs ys zs)) (Permᴰ.symm (Permᴰ.middle x ys (xs ++ zs)))

chunks_reach : (size threads : ℕ) → 0 < threads → size ≤ threads * chunk_size size threads
chunks_reach size threads h = grind arith

module _ (entries : Map) (threads : ℕ) where
  -- The entries of a thread, and of the threads of a list.
  abbrev pub piece : ℕ → Map
  piece t =
      take (past_entry (length entries) threads t - first_entry (length entries) threads t)
        (drop (first_entry (length entries) threads t) entries)

  abbrev pub pieces : List ℕ → Map
  pieces [] = []
  pieces (t ∷ ts) = piece t ++ pieces ts

  module _ {S : Type 0} (insert : Text → Text → S → S) (update_parent_hashes : Text → S → S) where
    pub insert_range-take :
        (i left : ℕ) (state : S)
        → insert_range insert update_parent_hashes entries i left state
          ≡ insert_all insert update_parent_hashes (take left (drop i entries)) state
    unfolding insert_range insert_all
    insert_range-take i zero state = refl
    insert_range-take i (suc left) state = elim (next_entry entries i) [
      | inl (e, d) ↦ rw (insert_range, e, d, insert_all) refl
      | inr (p, e, d) ↦
          rw (insert_range, e, d, insert_all)
            (insert_range-take (suc i) left (insert p.0 p.1 state))
    ]

  -- Order does not matter to what is written.
  pieces-Permᴰ : {xs ys : List ℕ} → Permᴰ xs ys → Permᴰ (pieces xs) (pieces ys)
  pieces-Permᴰ Permᴰ.nil = Permᴰ.nil
  pieces-Permᴰ (Permᴰ.cons e p) = rw e (Permᴰ.append_left _ (pieces-Permᴰ p))
  pieces-Permᴰ (Permᴰ.swap {a' = a'} {b' = b'} {l = l} e e') =
      rw (e, e') (append_swap (piece b') (piece a') (pieces l))
  pieces-Permᴰ (Permᴰ.trans p q) = Permᴰ.trans (pieces-Permᴰ p) (pieces-Permᴰ q)

  pieces-countdown :
      (k : ℕ) → Permᴰ (pieces (countdown k)) (take (first_entry (length entries) threads k) entries)
  pieces-countdown zero =
      let e : first_entry (length entries) threads 0 ≡ 0 = omega arith in rw e Permᴰ.nil
  pieces-countdown (suc k) =
      let c = chunk_size (length entries) threads in
      let e : suc k * c ≡ k * c + c = grind arith in
      Permᴰ.trans (Permᴰ.append_comm (piece k) (pieces (countdown k))) (
        subst (Permᴰ (pieces (countdown k) ++ piece k))
          (take_piece entries (k * c) c ∙ ap (λ j. take j entries) (sym e))
          (Permᴰ.append_right (piece k) (pieces-countdown k)))

  -- The threads together have every entry once.
  pub pieces-Permᴰ-entries :
      (order : List ℕ)
      → 0 < threads
      → Permᴰ order (countdown threads)
      → Permᴰ (pieces order) entries
  pieces-Permᴰ-entries order some_thread p =
      subst (Permᴰ (pieces order))
        (take_all entries (first_entry (length entries) threads threads)
          (chunks_reach (length entries) threads some_thread))
        (Permᴰ.trans (pieces-Permᴰ p) (pieces-countdown threads))
