-- ===== src/Contract/Settle.antt =====
-- Two numbers loaded and two written: what every name reads afterwards.
use icsa_artifact.Base.{◌≡◌, sym, ◌∙◌, ◌≢◌, arith, if◌then◌else◌}
use icsa_artifact.Base.Int.{ℤ, IsInt32}
use icsa_artifact.Text.{Text, text_eq, text_eq_ne, text_eq_refl}
use icsa_artifact.Text.Decimal.{to_string}
use icsa_artifact.Contract.{Map, put, ok, load_int}
use icsa_artifact.Contract.Number.{value, loaded, value-put, value-loaded}

module _ (get_value : Text → Text) where
  -- The map after both numbers are loaded.
  abbrev pub both : Text → Text → Map → Map
  both a b m = loaded get_value b (loaded get_value a m)

  pub load_value :
      (k : Text) (m : Map) {v : ℤ}
      → value get_value k m ≡ ok v
      → load_int get_value k m ≡ (ok v, loaded get_value k m)
  load_value k m h = ground arith

  pub load_second :
      (a b : Text) (m : Map) {y : ℤ}
      → value get_value b m ≡ ok y
      → load_int get_value b (loaded get_value a m) ≡ (ok y, both a b m)
  load_second a b m h = load_value b (loaded get_value a m) (value-loaded get_value a b m ∙ h)

  module _ (a b : Text) (m : Map) (x y : ℤ) (fits_x : IsInt32 x) (fits_y : IsInt32 y) where
    abbrev written : Map
    written = put b (to_string y) (put a (to_string x) (both a b m))

    value-written :
        (c : Text)
        → value get_value c written
          ≡ (if text_eq b c then ok y else if text_eq a c then ok x else value get_value c m)
    value-written c = rw (
      value-put get_value b c y (put a (to_string x) (both a b m)) fits_y,
      value-put get_value a c x (both a b m) fits_x,
      value-loaded get_value b c (loaded get_value a m),
      value-loaded get_value a c m,
    )

    pub value-written_second : value get_value b written ≡ ok y
    value-written_second = value-written b ∙ rw (text_eq_refl b)

    pub value-written_first : a ≢ b → value get_value a written ≡ ok x
    value-written_first ne = value-written a ∙ rw (text_eq_ne b a (λ e. ne (sym e)), text_eq_refl a)

    pub value-written_other :
        (c : Text) → c ≢ a → c ≢ b → value get_value c written ≡ value get_value c m
    value-written_other c ne_a ne_b =
        value-written c
        ∙ rw (text_eq_ne b c (λ e. ne_b (sym e)), text_eq_ne a c (λ e. ne_a (sym e)))
