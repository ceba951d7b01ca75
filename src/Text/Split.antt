-- ===== src/Text/Split.antt =====
-- Texts taken apart at a separator: `std::getline` in a loop, and `find` with `substr`.
use icsa_artifact.Base.{
  ℕ, ◌==◌, ◌≡◌, ◌≢◌, refl, sym, ◌∙◌, ap, true, false, Option, none, some, List, [], ◌∷◌, ◌++◌,
  arith, if◌then◌else◌,
}
use icsa_artifact.Text.{Text}

-- At the end of the text a piece counts only if it has a byte.
abbrev pub last_piece : Text → List Text
last_piece [] = []
last_piece (p ∷ ps) = (p ∷ ps) ∷ []

-- The pieces that `getline` reads; `piece` is the one begun.
unfoldable pub segments_from : ℕ → Text → Text → List Text
segments_from sep piece [] = last_piece piece
segments_from sep piece (c ∷ cs) =
    let rest = segments_from sep [] cs in
    let more = segments_from sep (piece ++ (c ∷ [])) cs in if c == sep then piece ∷ rest else more

unfoldable pub segments : ℕ → Text → List Text
unfolding segments_from
segments sep text = segments_from sep [] text

-- The parts before and behind the first separator.
unfoldable pub split_at : ℕ → Text → Option (Text × Text)
split_at sep [] = none
split_at sep (c ∷ cs) =
    let rest = split_at sep cs in
    if c == sep
    then some ([], cs)
    else elim rest [ none ↦ none | some (before, behind) ↦ some (c ∷ before, behind) ]

-- A text without a byte.
abbrev pub Free : ℕ → Text → Type 0
Free sep [] = Unit
Free sep (c ∷ cs) = (c ≢ sep) × Free sep cs

pub append_nil : (a : Text) → a ++ [] ≡ a
append_nil [] = refl
append_nil (x ∷ a) = ap (λ t. x ∷ t) (append_nil a)

pub append_assoc : (a b c : Text) → (a ++ b) ++ c ≡ a ++ (b ++ c)
append_assoc [] b c = refl
append_assoc (x ∷ a) b c = ap (λ t. x ∷ t) (append_assoc a b c)

segments_from-Free :
    (sep : ℕ) (piece t rest : Text)
    → Free sep t
    → segments_from sep piece (t ++ (sep ∷ rest)) ≡ (piece ++ t) ∷ segments_from sep [] rest
unfolding segments_from
segments_from-Free sep piece [] rest f =
    let test : (sep == sep) ≡ true = ground arith in
    rw test (ap (λ l. l ∷ segments_from sep [] rest) (sym (append_nil piece)))
segments_from-Free sep piece (c ∷ t) rest (ne, f) =
    let test : (c == sep) ≡ false = ground arith in
    rw test (
      segments_from-Free sep (piece ++ (c ∷ [])) t rest f
      ∙ ap (λ l. l ∷ segments_from sep [] rest) (append_assoc piece (c ∷ []) t))

-- The first piece of a text.
pub segments-Free :
    (sep : ℕ) (t rest : Text)
    → Free sep t
    → segments sep (t ++ (sep ∷ rest)) ≡ t ∷ segments sep rest
unfolding segments
segments-Free sep t rest f = segments_from-Free sep [] t rest f

pub split_at-Free :
    (sep : ℕ) (t rest : Text) → Free sep t → split_at sep (t ++ (sep ∷ rest)) ≡ some (t, rest)
unfolding split_at
split_at-Free sep [] rest f = ground arith
split_at-Free sep (c ∷ t) rest (ne, f) =
    let test : (c == sep) ≡ false = ground arith in rw (test, split_at-Free sep t rest f) refl
