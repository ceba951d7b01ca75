-- ===== src/StateNode/RoundTrip.antt =====
-- `deserializeNode` on what `serializeNode` writes.
use icsa_artifact.Base.{
  ℕ, zero, suc, ◌+◌, ◌-◌, ◌<◌, ◌≤◌, ◌≡◌, ◌≢◌, refl, sym, ap, ◌∙◌, ◌==◌, ltb, true, false, none,
  some, List, [], ◌∷◌, ◌++◌, arith, length, take, drop, length-append, length-drop,
}
use icsa_artifact.Text.{Text}
use icsa_artifact.StateNode.{
  Node, comma, add_children, serialize_node, index, find_comma, piece, read_children,
  deserialize_node,
}

-- A text without a comma.
abbrev pub Plain : Text → Type 0
Plain [] = Unit
Plain (c ∷ cs) = (c ≢ comma) × Plain cs

-- Texts without commas, and none empty.
abbrev pub PlainAll : List Text → Type 0
PlainAll [] = Unit
PlainAll (t ∷ ts) = Plain t × (0 < length t) × PlainAll ts

index-comma : (t rest : Text) → Plain t → index (t ++ (comma ∷ rest)) ≡ some (length t)
unfolding index
index-comma [] rest p = refl
index-comma (c ∷ cs) rest (ne, p) =
    let test : (c == comma) ≡ false = ground arith in rw (test, index-comma cs rest p) refl

index-Plain : (t : Text) → Plain t → index t ≡ none
unfolding index
index-Plain [] p = refl
index-Plain (c ∷ cs) (ne, p) =
    let test : (c == comma) ≡ false = ground arith in rw (test, index-Plain cs p) refl

drop-length : (pre rest : Text) → drop (length pre) (pre ++ rest) ≡ rest
drop-length [] rest = refl
drop-length (c ∷ cs) rest = drop-length cs rest

take-length : (pre rest : Text) → take (length pre) (pre ++ rest) ≡ pre
take-length [] rest = refl
take-length (c ∷ cs) rest = ap (λ z. c ∷ z) (take-length cs rest)

append-nil : (t : Text) → t ++ [] ≡ t
append-nil [] = refl
append-nil (c ∷ cs) = ap (λ z. c ∷ z) (append-nil cs)

drop-nil : (n : ℕ) → drop {A = ℕ} n [] ≡ []
drop-nil zero = refl
drop-nil (suc n) = refl

drop-add : (a b : ℕ) (t : Text) → drop (a + b) t ≡ drop b (drop a t)
drop-add zero b t = let e : 0 + b ≡ b = omega arith in rw e refl
drop-add (suc a) b [] = drop-nil (suc a + b) ∙ sym (drop-nil b)
drop-add (suc a) b (c ∷ cs) =
    let e : suc a + b ≡ suc (a + b) = omega arith in rw e (drop-add a b cs)

-- At a position where the text goes on with `t` and a comma.
module _ (text : Text) (pos : ℕ) (t rest : Text) (here : drop pos text ≡ t ++ (comma ∷ rest))
    (p : Plain t) where
  find_comma-here : find_comma text pos ≡ some (pos + length t)
  unfolding find_comma
  find_comma-here = rw (find_comma, here, index-comma t rest p) refl

  piece-here : piece text pos (some (pos + length t)) ≡ t
  unfolding piece
  piece-here =
      let e : pos + length t - pos ≡ length t = omega arith in
      rw (here, e) (take-length t (comma ∷ rest))

  behind-here : drop (pos + length t + 1) text ≡ rest
  behind-here =
      let e : pos + length t + 1 ≡ pos + (length t + 1) = omega arith in
      rw
        (
          e,
          drop-add pos (length t + 1) text,
          here,
          drop-add (length t) 1 (t ++ (comma ∷ rest)),
          drop-length t (comma ∷ rest),
        )
        refl

find_comma-none :
    (text : Text) (pos : ℕ) (t : Text) → drop pos text ≡ t → Plain t → find_comma text pos ≡ none
unfolding find_comma
find_comma-none text pos t here p = rw (find_comma, here, index-Plain t p) refl

-- From a position on, the text is children with commas between them.
read_all :
    (fuel : ℕ) (text : Text) (pos : ℕ) (t : Text) (ts : List Text)
    → drop pos text ≡ t ++ add_children ts
    → PlainAll (t ∷ ts)
    → length ts < fuel
    → read_children fuel text pos ≡ t ∷ ts
unfolding read_children add_children
read_all zero text pos t ts here p h = absurd (omega arith)
read_all (suc fuel) text pos t [] here (plain, long, _) h =
    let e : drop pos text ≡ t = here ∙ append-nil t in
    let inside : ltb pos (length text) ≡ true = ground (arith, length-drop pos text, ap length e) in
    rw (read_children, find_comma-none text pos t e plain, inside, e) refl
read_all (suc fuel) text pos t (u ∷ us) here (plain, long, p) h =
    rw
      (
        read_children,
        find_comma-here text pos t (u ++ add_children us) here plain,
        piece-here text pos t (u ++ add_children us) here plain,
      )
      (ap (λ z. t ∷ z)
        (read_all fuel text (pos + length t + 1) u us
          (behind-here text pos t (u ++ add_children us) here plain) p (omega arith)))

length-add_children : (ts : List Text) → length ts ≤ length (add_children ts)
unfolding add_children
length-add_children [] = omega arith
length-add_children (t ∷ ts) =
    omega (arith, length-append t (add_children ts), length-add_children ts)

-- The hash and the value of a written node, and where the children begin.
module _ (hash value : Text) (plain_hash : Plain hash) (plain_value : Plain value) where
  pub first-comma : (rest : Text) → find_comma (hash ++ (comma ∷ rest)) 0 ≡ some (0 + length hash)
  first-comma rest = find_comma-here (hash ++ (comma ∷ rest)) 0 hash rest refl plain_hash

  first-piece : (rest : Text) → piece (hash ++ (comma ∷ rest)) 0 (some (0 + length hash)) ≡ hash
  first-piece rest = piece-here (hash ++ (comma ∷ rest)) 0 hash rest refl plain_hash

  pub behind-first : (rest : Text) → drop (0 + length hash + 1) (hash ++ (comma ∷ rest)) ≡ rest
  behind-first rest = behind-here (hash ++ (comma ∷ rest)) 0 hash rest refl plain_hash

  written : List Text → Text
  written children = hash ++ (comma ∷ (value ++ add_children children))

  read_inner :
      (child : Text) (children : List Text)
      → PlainAll (child ∷ children)
      → deserialize_node (written (child ∷ children))
        ≡ record { value = value; hash = hash; children = child ∷ children }
  unfolding deserialize_node written add_children
  read_inner child children p =
      let rest = value ++ add_children (child ∷ children) in
      let text = hash ++ (comma ∷ rest) in
      let pos = 0 + length hash + 1 in
      let here = behind-first rest in
      rw
        (
          first-comma rest,
          first-piece rest,
          find_comma-here text pos value (child ++ add_children children) here plain_value,
          piece-here text pos value (child ++ add_children children) here plain_value,
          read_all (length text + 1) text (pos + length value + 1) child children
              (behind-here text pos value (child ++ add_children children) here plain_value) p
              (omega (
                arith,
                length-append hash (comma ∷ rest),
                length-append value (add_children (child ∷ children)),
                length-append child (add_children children),
                length-add_children children,
              )),
        )
        refl

  read_leaf :
      0 < length hash
      → 0 < length value
      → deserialize_node (written [])
        ≡ record { value = value; hash = hash; children = hash ∷ value ∷ [] }
  unfolding deserialize_node written add_children piece
  read_leaf long_hash long_value =
      let rest = value ++ [] in
      let text = hash ++ (comma ∷ rest) in
      let pos = 0 + length hash + 1 in
      let here = behind-first rest ∙ append-nil value in
      rw
        (
          first-comma rest,
          first-piece rest,
          find_comma-none text pos value here plain_value,
          read_all (length text + 1) text 0 hash (value ∷ []) refl
              (plain_hash, long_hash, (plain_value, long_value, tt))
              (omega (arith, length-append hash (comma ∷ rest))),
        )
        (rw (piece, here) refl)

-- A node with children, whose hash, value and children hold no comma, none of the children empty, is
-- read back as it was written.
pub deserialize-serialize :
    (hash value child : Text) (children : List Text)
    → Plain hash
    → Plain value
    → PlainAll (child ∷ children)
    → let node : Node = record { value = value; hash = hash; children = child ∷ children } in
      deserialize_node (serialize_node node) ≡ node
unfolding serialize_node written
deserialize-serialize hash value child children plain_hash plain_value plain =
    read_inner hash value plain_hash plain_value child children plain

-- A node without children, whose hash and value are not empty and hold no comma, is read back with
-- its hash and its value for children.
pub leaf_gains_children :
    (hash value : Text)
    → Plain hash
    → Plain value
    → 0 < length hash
    → 0 < length value
    → deserialize_node (serialize_node (record { value = value; hash = hash; children = [] }))
      ≡ record { value = value; hash = hash; children = hash ∷ value ∷ [] }
unfolding serialize_node written
leaf_gains_children hash value plain_hash plain_value long_hash long_value =
    read_leaf hash value plain_hash plain_value long_hash long_value
