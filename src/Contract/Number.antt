-- ===== src/Contract/Number.antt =====
-- The numbers that a map holds, read and written.
use icsa_artifact.Base.{
  ◌≡◌, some, none, [], ◌∷◌, arith, if◌then◌else◌, Option-cases, inl, inr, Bool-cases, ap, sym, ◌∙◌,
}
use icsa_artifact.Base.Int.{ℤ, IsInt32}
use icsa_artifact.Text.{Text, text_eq, text_eq_iff}
use icsa_artifact.Text.Decimal.{stoi, to_string}
use icsa_artifact.Text.Decimal.RoundTrip.{stoi-to_string, stoi-IsInt32}
use icsa_artifact.Contract.{Map, find, put, Outcome, ok, threw, attempt, load_int, number_of}
use icsa_artifact.Contract.Store.{find-put}

number_of-IsInt32 : (t : Text) (v : ℤ) → number_of t ≡ some v → IsInt32 v
number_of-IsInt32 [] v h = ground arith
number_of-IsInt32 (c ∷ cs) v h = stoi-IsInt32 (c ∷ cs) v h

module _ (get_value : Text → Text) where
  -- What a read of a number gives.
  abbrev pub value : Text → Map → Outcome ℤ
  value name m = (load_int get_value name m).0

  -- The map that a read leaves.
  abbrev pub loaded : Text → Map → Map
  loaded name m = (load_int get_value name m).1

  pub value-put :
      (k j : Text) (v : ℤ) (m : Map)
      → IsInt32 v
      → value j (put k (to_string v) m) ≡ (if text_eq k j then ok v else value j m)
  unfolding load_int
  value-put k j v m h = ground (arith, find-put k j (to_string v) m, stoi-to_string v h)

  load_hit :
      (k : Text) (m : Map) {t : Text}
      → find k m ≡ some t
      → load_int get_value k m ≡ attempt (stoi t) m
  unfolding load_int
  load_hit k m h = rw (h, load_int)

  load_miss :
      (k : Text) (m : Map) {v : ℤ}
      → find k m ≡ none
      → number_of (get_value k) ≡ some v
      → load_int get_value k m ≡ (ok v, put k (to_string v) m)
  unfolding load_int
  load_miss k m h e = rw (h, e, load_int)

  load_fails :
      (k : Text) (m : Map)
      → find k m ≡ none
      → number_of (get_value k) ≡ none
      → load_int get_value k m ≡ (threw, m)
  unfolding load_int
  load_fails k m h e = rw (h, e, load_int)

  loaded_hit : (k : Text) (m : Map) {t : Text} → find k m ≡ some t → loaded k m ≡ m
  unfolding attempt
  loaded_hit k m {t} h =
      rw (load_hit k m h, loaded)
        (elim (Option-cases (stoi t)) [ inl e ↦ rw e | inr (v, e) ↦ rw e ])

  value_after_miss :
      (k j : Text) (m : Map) {v : ℤ}
      → find k m ≡ none
      → number_of (get_value k) ≡ some v
      → value j (put k (to_string v) m) ≡ value j m
  value_after_miss k j m {v} h e =
      value-put k j v m (number_of-IsInt32 _ v e) ∙ elim (Bool-cases (text_eq k j)) [
        | inl same ↦ rw (same, ← (text_eq_iff k j).0 same) (ap (λ r. r.0) (sym (load_miss k m h e)))
        | inr other ↦ rw other
      ]

  -- Loading one number changes what is read under no name.
  pub value-loaded : (k j : Text) (m : Map) → value j (loaded k m) ≡ value j m
  value-loaded k j m = elim (Option-cases (find k m)) [
    | inr (t, h) ↦ ap (value j) (loaded_hit k m h)
    | inl h ↦ elim (Option-cases (number_of (get_value k))) [
      | inl e ↦ ap (λ r. value j r.1) (load_fails k m h e)
      | inr (v, e) ↦ ap (λ r. value j r.1) (load_miss k m h e) ∙ value_after_miss k j m h e
    ]
  ]

  -- A number that is read is an `int`.
  pub value-IsInt32 : (k : Text) (m : Map) (v : ℤ) → value k m ≡ ok v → IsInt32 v
  unfolding attempt
  value-IsInt32 k m v h = elim (Option-cases (find k m)) [
    | inr (t, e) ↦ stoi-IsInt32 t v (ground (arith, load_hit k m e))
    | inl e ↦ elim (Option-cases (number_of (get_value k))) [
      | inl n ↦ ground (arith, load_fails k m e n)
      | inr (w, n) ↦ number_of-IsInt32 (get_value k) v (ground (arith, load_miss k m e n))
    ]
  ]
