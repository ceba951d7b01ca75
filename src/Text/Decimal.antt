-- ===== src/Text/Decimal.antt =====
-- `std::to_string(int)` and `std::stoi`.
pub mod RoundTrip
use icsa_artifact.Base.{
  ℕ, zero, suc, ◌+◌, ◌-◌, ◌*◌, ◌/◌, ◌%◌, ◌^◌, ◌≤◌, ◌<◌, ◌≡◌, refl, ◌∙◌, Bool, true, false, ◌&&◌,
  ◌||◌, Option, none, some, List, [], ◌∷◌, arith, ltb, leb, ◌==◌, if◌then◌else◌, Bool-cases, inl,
  inr, ap,
}
use icsa_artifact.Text.{Text}
use icsa_artifact.Base.Int.{ℤ, pos, negsuc, IsInt32, is_int32, IsInt32-test}

-- The digits of `n` in front of `acc`; `fuel` above `n` is enough.
print_digits : ℕ → ℕ → Text → Text
print_digits zero n acc = acc
print_digits (suc fuel) n acc =
    let rest = print_digits fuel (n / 10) ((b'0' + n % 10) ∷ acc) in
    if ltb n 10 then (b'0' + n) ∷ acc else rest

-- `std::to_string`
unfoldable pub to_string : ℤ → Text
unfolding print_digits
to_string (pos n) = print_digits (suc n) n []
to_string (negsuc n) = b'-' ∷ print_digits (suc (suc n)) (suc n) []

abbrev is_digit : ℕ → Bool
is_digit c = leb b'0' c && leb c b'9'

abbrev pub is_space : ℕ → Bool
is_space c = c == 32 || (leb 9 c && leb c 13)

-- The number that the leading digits of a text spell, after `acc`.
read_digits : ℕ → Text → ℕ
read_digits acc [] = acc
read_digits acc (c ∷ cs) =
    let more = read_digits (acc * 10 + (c - b'0')) cs in if is_digit c then more else acc

-- `strtol` needs one digit at least.
read_number : Text → Option ℕ
unfolding read_digits
read_number [] = none
read_number (c ∷ cs) = if is_digit c then some (read_digits 0 (c ∷ cs)) else none

skip_spaces : Text → Text
skip_spaces [] = []
skip_spaces (c ∷ cs) = let rest = skip_spaces cs in if is_space c then rest else c ∷ cs

negated : ℕ → ℤ
negated zero = pos 0
negated (suc n) = negsuc n

read_signed : Text → Option ℤ
unfolding read_number negated
read_signed [] = none
read_signed (c ∷ cs) =
    if c == b'-'
    then elim (read_number cs) [ none ↦ none | some n ↦ some (negated n) ]
    else if c == b'+'
    then elim (read_number cs) [ none ↦ none | some n ↦ some (pos n) ]
    else elim (read_number (c ∷ cs)) [ none ↦ none | some n ↦ some (pos n) ]

-- `std::stoi`: leading blanks, a sign, digits; what follows the digits is ignored. `none` is the
-- exception `invalid_argument` (no digit) or `out_of_range`.
unfoldable pub stoi : Text → Option ℤ
unfolding skip_spaces read_signed
stoi t = elim (read_signed (skip_spaces t)) [
  | none ↦ none
  | some v ↦ if is_int32 v then some v else none
]
