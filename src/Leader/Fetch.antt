-- ===== src/Leader/Fetch.antt =====
-- The data of a node, written as pairs and read by `fetchAndParseKeys`.
use icsa_artifact.Base.{ℕ, ◌≡◌, ◌≢◌, refl, sym, ◌∙◌, ap, some, List, [], ◌∷◌, ◌++◌, arith}
use icsa_artifact.Text.{Text, bytes}
use icsa_artifact.Text.Split.{
  segments, segments-Free, split_at-Free, Free, append_nil, append_assoc,
}
use icsa_artifact.Leader.{pairs_of, insert_pairs, fetch_and_parse_keys}

-- `key=value;` for each pair.
pub write_pairs : List (Text × Text) → Text
write_pairs [] = []
write_pairs ((key, value) ∷ pairs) = key ++ (b'=' ∷ (value ++ (b';' ∷ write_pairs pairs)))

-- No `=` or `;` in a key, and no `;` in a value.
abbrev pub Separable : List (Text × Text) → Type 0
Separable [] = Unit
Separable ((key, value) ∷ pairs) = Free b'=' key × Free b';' key × Free b';' value × Separable pairs

-- The keys with a space behind each, and what inserting the pairs makes of a state.
pub key_line : List (Text × Text) → Text
key_line [] = []
key_line ((key, value) ∷ pairs) = key ++ (bytes " " ++ key_line pairs)

abbrev pub insert_in_order : {S : Type 0} → (Text → Text → S → S) → List (Text × Text) → S → S
insert_in_order insert [] state = state
insert_in_order insert ((key, value) ∷ pairs) state =
    insert_in_order insert pairs (insert key value state)

Free-append :
    (sep : ℕ) (s t : Text) (c : ℕ) → Free sep s → c ≢ sep → Free sep t → Free sep (s ++ (c ∷ t))
Free-append sep [] t c fs nc ft = (nc, ft)
Free-append sep (x ∷ s) t c (nx, fs) nc ft = (nx, Free-append sep s t c fs nc ft)

regroup :
    (key value rest : Text) → key ++ (b'=' ∷ (value ++ rest)) ≡ (key ++ (b'=' ∷ value)) ++ rest
regroup [] value rest = refl
regroup (x ∷ key) value rest = ap (λ t. x ∷ t) (regroup key value rest)

pairs_of-write :
    (pairs : List (Text × Text))
    → Separable pairs
    → pairs_of (segments b';' (write_pairs pairs)) ≡ pairs
unfolding write_pairs pairs_of segments
pairs_of-write [] s = refl
pairs_of-write ((key, value) ∷ pairs) (no_eq, no_semi, plain, s) =
    ap (λ t. pairs_of (segments b';' t)) (regroup key value (b';' ∷ write_pairs pairs))
    ∙ rw
        (
          segments-Free b';' (key ++ (b'=' ∷ value)) (write_pairs pairs)
              (Free-append b';' key value b'=' no_semi (omega arith) plain),
          pairs_of,
          split_at-Free b'=' key value no_eq,
        )
        (ap (λ l. (key, value) ∷ l) (pairs_of-write pairs s))

insert_pairs-order :
    {S : Type 0} (insert : Text → Text → S → S) (pairs : List (Text × Text)) (keys : Text)
    (state : S)
    → insert_pairs insert pairs keys state
      ≡ (keys ++ key_line pairs, insert_in_order insert pairs state)
unfolding insert_pairs key_line
insert_pairs-order insert [] keys state = ap (λ t. (t, state)) (sym (append_nil keys))
insert_pairs-order insert ((key, value) ∷ pairs) keys state =
    insert_pairs-order insert pairs (keys ++ (key ++ bytes " ")) (insert key value state)
    ∙ ap (λ t. (t, insert_in_order insert pairs (insert key value state)))
        (append_assoc keys (key ++ bytes " ") (key_line pairs)
          ∙ ap (λ t. keys ++ t) (append_assoc key (bytes " ") (key_line pairs)))

-- Pairs whose keys have no `=` and no `;` and whose values have no `;`, written as `key=value;`, are
-- read by `fetchAndParseKeys` as they are: it inserts them into the state in their order, and
-- answers with the keys, a space behind each.
pub fetch_reads_pairs :
    {S : Type 0} (insert : Text → Text → S → S) (pairs : List (Text × Text)) (state : S)
    → Separable pairs
    → fetch_and_parse_keys insert (some (write_pairs pairs)) state
      ≡ (key_line pairs, insert_in_order insert pairs state)
unfolding fetch_and_parse_keys
fetch_reads_pairs insert pairs state s =
    ap (λ ps. insert_pairs insert ps [] state) (pairs_of-write pairs s)
    ∙ insert_pairs-order insert pairs [] state
