-- ===== src/GlobalState/Value.antt =====
-- The value of a node that was written.
use icsa_artifact.Base.{
  ℕ, suc, ◌+◌, ◌-◌, ◌⊎◌, ◌≡◌, refl, sym, ◌∙◌, ap, subst, Bool-cases, inl, inr, none, some, List, [],
  ◌∷◌, ◌++◌, arith, ◌==◌, if◌then◌else◌, length, take, drop,
}
use icsa_artifact.Text.{Text}
use icsa_artifact.StateNode.{
  Node, comma, serialize_node, deserialize_node, add_children, find_comma, piece, index, behind,
}
use icsa_artifact.StateNode.RoundTrip.{Plain, first-comma, behind-first}

-- The part of a text before its first comma.
unfoldable pub up_to_comma : Text → Text
up_to_comma [] = []
up_to_comma (c ∷ cs) = if c == comma then [] else c ∷ up_to_comma cs

pub up_to_comma-Plain : (t : Text) → Plain t → up_to_comma t ≡ t
unfolding up_to_comma
up_to_comma-Plain [] p = refl
up_to_comma-Plain (c ∷ cs) (ne, p) = ground (arith, up_to_comma-Plain cs p)

Plain-up_to_comma : (t : Text) → Plain (up_to_comma t)
unfolding up_to_comma
Plain-up_to_comma [] = tt
Plain-up_to_comma (c ∷ cs) = elim (Bool-cases (c == comma)) [
  | inl here ↦ rw here tt
  | inr later ↦ rw later (ground arith, Plain-up_to_comma cs)
]

up_to_comma-children :
    (t : Text) (children : List Text) → up_to_comma (t ++ add_children children) ≡ up_to_comma t
unfolding up_to_comma add_children
up_to_comma-children [] [] = refl
up_to_comma-children [] (c ∷ cs) = refl
up_to_comma-children (c ∷ cs) children = ground (arith, up_to_comma-children cs children)

index_cut :
    (t : Text)
    → ((index t ≡ none) × (up_to_comma t ≡ t))
      ⊎ ((k : ℕ) × (index t ≡ some k) × (take k t ≡ up_to_comma t))
unfolding index up_to_comma
index_cut [] = inl (refl, refl)
index_cut (c ∷ cs) = elim (Bool-cases (c == comma)) [
  | inl here ↦ inr (0, rw here refl, rw here refl)
  | inr later ↦ elim (index_cut cs) [
    | inl (n, e) ↦ inl (rw (later, n) refl, rw later (ap (λ t. c ∷ t) e))
    | inr (k, n, e) ↦ inr (suc k, rw (later, n) refl, rw later (ap (λ t. c ∷ t) e))
  ]
]

-- What stands between a position and the next comma.
piece_cut :
    (text : Text) (pos : ℕ) → piece text pos (find_comma text pos) ≡ up_to_comma (drop pos text)
unfolding find_comma piece
piece_cut text pos = elim (index_cut (drop pos text)) [
  | inl (n, e) ↦ rw (find_comma, n) (sym e)
  | inr (k, n, e) ↦ let back : pos + k - pos ≡ k = omega arith in rw (find_comma, n, piece, back) e
]

read_value :
    (hash rest : Text)
    → Plain hash
    → (deserialize_node (hash ++ (comma ∷ rest))).value ≡ up_to_comma rest
unfolding deserialize_node
read_value hash rest plain = rw (first-comma hash [] plain tt rest) (
    piece_cut (hash ++ (comma ∷ rest)) (0 + length hash + 1)
    ∙ ap up_to_comma (behind-first hash [] plain tt rest))

-- A node that is written with a hash without a comma is read with its value cut at the first comma.
pub value_written :
    (node : Node)
    → Plain node.hash
    → (deserialize_node (serialize_node node)).value ≡ up_to_comma node.value
unfolding serialize_node
value_written node plain =
    read_value node.hash (node.value ++ add_children node.children) plain
    ∙ up_to_comma-children node.value node.children

-- A value that was read has no comma.
pub value_Plain : (text : Text) → Plain (deserialize_node text).value
unfolding deserialize_node
value_Plain text =
    subst Plain (sym (piece_cut text (behind (find_comma text 0))))
      (Plain-up_to_comma (drop (behind (find_comma text 0)) text))
