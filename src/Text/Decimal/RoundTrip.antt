-- ===== src/Text/Decimal/RoundTrip.antt =====
-- `std::stoi` on what `std::to_string` prints.
use icsa_artifact.Base.{
  ℕ, zero, suc, ◌+◌, ◌/◌, ◌%◌, ◌≤◌, ◌<◌, ◌≡◌, ◌∙◌, [], ◌∷◌, arith, ap, some, ltb, Bool-cases, inl,
  inr,
}
use icsa_artifact.Base.Int.{ℤ, pos, negsuc, IsInt32}
use icsa_artifact.Text.{Text}
use icsa_artifact.Text.Decimal.{
  print_digits, read_digits, read_number, read_signed, skip_spaces, to_string, stoi,
}

-- A text that begins with a digit.
record StartsWithDigit (t : Text) : Type 0 where
  first : ℕ
  rest : Text
  split : t ≡ first ∷ rest
  lower : b'0' ≤ first
  upper : first ≤ b'9'

print_digits-digit :
    (fuel n : ℕ) (acc : Text) → n < fuel → StartsWithDigit (print_digits fuel n acc)
unfolding print_digits
print_digits-digit zero n acc h = absurd (omega arith)
print_digits-digit (suc fuel) n acc h = elim (Bool-cases (ltb n 10)) [
  | inl small ↦ record {
    first = b'0' + n;
    rest = acc;
    split = rw small;
    lower = omega arith;
    upper = ground arith;
  }
  | inr large ↦ rw large (print_digits-digit fuel (n / 10) _ (ground arith))
]

read_digits-print_digits :
    (fuel n : ℕ) (acc : Text)
    → n < fuel
    → read_digits 0 (print_digits fuel n acc) ≡ read_digits n acc
unfolding print_digits read_digits
read_digits-print_digits zero n acc h = absurd (omega arith)
read_digits-print_digits (suc fuel) n acc h = elim (Bool-cases (ltb n 10)) [
  | inl small ↦ ground arith
  | inr large ↦ ground (arith, read_digits-print_digits fuel (n / 10) ((b'0' + n % 10) ∷ acc))
]

-- What stands in front of a digit is neither a blank nor a sign.
module _ (c : ℕ) (cs : Text) (lower : b'0' ≤ c) (upper : c ≤ b'9') where
  number_digit : read_number (c ∷ cs) ≡ some (read_digits 0 (c ∷ cs))
  unfolding read_number
  number_digit = ground arith

  spaces_digit : skip_spaces (c ∷ cs) ≡ c ∷ cs
  unfolding skip_spaces
  spaces_digit = ground arith

  signed_digit : read_signed (c ∷ cs) ≡ some (pos (read_digits 0 (c ∷ cs)))
  unfolding read_signed
  signed_digit = ground (arith, number_digit)

  stoi_digit :
      IsInt32 (pos (read_digits 0 (c ∷ cs))) → stoi (c ∷ cs) ≡ some (pos (read_digits 0 (c ∷ cs)))
  unfolding stoi
  stoi_digit h = ground arith

module _ (n : ℕ) where
  printed : StartsWithDigit (print_digits (suc n) n [])
  printed = print_digits-digit (suc n) n [] (omega arith)

  read_digits-printed : read_digits 0 (print_digits (suc n) n []) ≡ n
  unfolding read_digits
  read_digits-printed = read_digits-print_digits (suc n) n [] (omega arith)

  read_number-printed : read_number (print_digits (suc n) n []) ≡ some n
  read_number-printed =
      let d = printed in
      let back : read_digits 0 (d.first ∷ d.rest) ≡ n = rw (← d.split) read_digits-printed in
      rw d.split (number_digit d.first d.rest d.lower d.upper) ∙ ap some back

  stoi-printed : IsInt32 (pos n) → stoi (print_digits (suc n) n []) ≡ some (pos n)
  stoi-printed h =
      let d = printed in
      let back : read_digits 0 (d.first ∷ d.rest) ≡ n = rw (← d.split) read_digits-printed in
      rw d.split (stoi_digit d.first d.rest d.lower d.upper (rw back h))
      ∙ ap (λ k. some (pos k)) back

stoi-negative :
    (n : ℕ)
    → IsInt32 (negsuc n)
    → stoi (b'-' ∷ print_digits (suc (suc n)) (suc n) []) ≡ some (negsuc n)
unfolding stoi
stoi-negative n h = ground (arith, read_number-printed (suc n))

pub stoi-to_string : (v : ℤ) → IsInt32 v → stoi (to_string v) ≡ some v
unfolding to_string
stoi-to_string (pos n) h = stoi-printed n h
stoi-to_string (negsuc n) h = stoi-negative n h

-- What `std::stoi` returns is an `int`.
pub stoi-IsInt32 : (t : Text) (v : ℤ) → stoi t ≡ some v → IsInt32 v
unfolding stoi
stoi-IsInt32 t v h = ground arith
