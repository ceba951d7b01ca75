-- ===== src/Commerce/Stock.antt =====
-- What is read of the map under a name, and what loading, `checkout` and `refillItem` do to it.
use icsa_artifact.Base.{
  ◌≡◌, refl, sym, ◌∙◌, ◌≢◌, true, none, some, Option-cases, inl, inr, Bool-cases, [], ◌∷◌, arith,
  if◌then◌else◌, ap,
}
use icsa_artifact.Base.Int.{ℤ, ◌+ℤ◌, IsInt32, IsInt32-test}
use icsa_artifact.Text.{Text, bytes, text_eq, text_eq_iff, text_eq_refl, text_eq_ne}
use icsa_artifact.Text.Decimal.{stoi, to_string}
use icsa_artifact.Contract.{Map, find, put, number_of, ok, ◌>>=◌, return, attempt, int, write}
use icsa_artifact.Contract.Store.{find-put}
use icsa_artifact.Commerce.{get_or_load_value, checkout, refill_item}

module _ (get_value : Text → Text) where
  -- The text under a name: the map's, or else the global state's.
  abbrev pub shown : Text → Map → Text
  shown name m = elim (find name m) [ some value ↦ value | none ↦ get_value name ]

  pub shown-put :
      (k c v : Text) (m : Map) → shown c (put k v m) ≡ (if text_eq k c then v else shown c m)
  shown-put k c v m = ground (arith, find-put k c v m)

  -- The map after a load.
  abbrev pub after_load : Text → Map → Map
  after_load k m = (get_or_load_value get_value k m).1

  load_miss :
      (k : Text) (m : Map)
      → find k m ≡ none
      → get_or_load_value get_value k m ≡ (ok (get_value k), put k (get_value k) m)
  unfolding get_or_load_value ◌>>=◌ write return
  load_miss k m e = rw (e, get_or_load_value) refl

  load_hit :
      (k : Text) (m : Map) {v : Text}
      → find k m ≡ some v
      → get_or_load_value get_value k m ≡ (ok v, m)
  unfolding get_or_load_value
  load_hit k m e = rw (e, get_or_load_value) refl

  load-shown :
      (k : Text) (m : Map) → get_or_load_value get_value k m ≡ (ok (shown k m), after_load k m)
  load-shown k m = elim (Option-cases (find k m)) [
    | inl e ↦ let l = load_miss k m e in rw (l, e, shown, after_load) refl
    | inr (v, e) ↦ let l = load_hit k m e in rw (l, e, shown, after_load) refl
  ]

  pub shown-after_load : (k c : Text) (m : Map) → shown c (after_load k m) ≡ shown c m
  shown-after_load k c m = elim (Option-cases (find k m)) [
    | inl e ↦
        ap (λ r. shown c r.1) (load_miss k m e)
        ∙ ground (arith, shown-put k c (get_value k) m, text_eq_iff k c, e)
    | inr (v, e) ↦ ap (λ r. shown c r.1) (load_hit k m e)
  ]

-- Checking out empties the cart, and changes nothing under another name.
pub checkout_empties :
    (get_value : Text → Text) (cart_address : Text) (m : Map)
    → let r = checkout get_value cart_address m in
      (r.0 ≡ ok true)
      × (shown get_value cart_address r.1 ≡ [])
      × ((c : Text) → c ≢ cart_address → shown get_value c r.1 ≡ shown get_value c m)
unfolding checkout ◌>>=◌ write return
checkout_empties get_value k m = elim (Bool-cases (text_eq (shown get_value k m) [])) [
  | inl empty ↦
      rw (load-shown get_value k m, empty, checkout)
        (
          refl,
          shown-after_load get_value k k m ∙ (text_eq_iff (shown get_value k m) []).0 empty,
          λ c ne. shown-after_load get_value k c m,
        )
  | inr full ↦
      rw (load-shown get_value k m, full, checkout)
        (
          refl,
          shown-put get_value k k [] _ ∙ rw (text_eq_refl k),
          λ c ne.
              shown-put get_value k c [] _
              ∙ rw (text_eq_ne k c (λ e. ne (sym e))) (shown-after_load get_value k c m),
        )
]

read_stock :
    (t : Text) {x : ℤ}
    → number_of t ≡ some x
    → stoi (if text_eq t [] then bytes "0" else t) ≡ some x
unfolding text_eq stoi
read_stock [] h = h
read_stock (c ∷ cs) h = h

-- If an item's stock is read as `x`, where no text counts as 0, the quantity as `n`, and `x + n` is an
-- `int` value, then a refill succeeds, leaves the decimal text of `x + n` under the item's name, and
-- changes nothing under another name.
pub refill_adds :
    (get_value : Text → Text) (item quantity : Text) (m : Map) {x n : ℤ}
    → number_of (shown get_value item m) ≡ some x
    → stoi quantity ≡ some n
    → IsInt32 (x +ℤ n)
    → let r = refill_item get_value item quantity m in
      (r.0 ≡ ok true)
      × (shown get_value item r.1 ≡ to_string (x +ℤ n))
      × ((c : Text) → c ≢ item → shown get_value c r.1 ≡ shown get_value c m)
unfolding refill_item ◌>>=◌ write return attempt int
refill_adds get_value k quantity m {x} {n} stock parsed fits =
    rw
      (
        load-shown get_value k m,
        read_stock (shown get_value k m) stock,
        parsed,
        IsInt32-test (x +ℤ n) fits,
        refill_item,
      )
      (
        refl,
        shown-put get_value k k (to_string (x +ℤ n)) _ ∙ rw (text_eq_refl k),
        λ c ne.
            shown-put get_value k c (to_string (x +ℤ n)) _
            ∙ rw (text_eq_ne k c (λ e. ne (sym e))) (shown-after_load get_value k c m),
      )
