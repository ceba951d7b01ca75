-- ===== src/Wallet/Transfer.antt =====
-- What `transfer` does to the balances.
use icsa_artifact.Base.{◌≡◌, refl, ◌∙◌, ◌≢◌, true, false, some, arith}
use icsa_artifact.Base.Int.{ℤ, IsInt32, ◌+ℤ◌, ◌-ℤ◌, ◌≤ℤ◌}
use icsa_artifact.Text.{Text}
use icsa_artifact.Text.Decimal.{stoi, to_string}
use icsa_artifact.Contract.{Map, put, ok, ◌>>=◌, attempt, int, write, return}
use icsa_artifact.Contract.Number.{value, value-loaded, loaded}
use icsa_artifact.Contract.Settle.{
  both, load_value, load_second, value-written_first, value-written_second, value-written_other,
}
use icsa_artifact.Wallet.{transfer}

module _ (get_value : Text → Text) (a b amount : Text) (m : Map) {x y n : ℤ}
    (has_x : value get_value a m ≡ ok x) (has_y : value get_value b m ≡ ok y)
    (parsed : stoi amount ≡ some n) where
  transfer_steps :
      n ≤ℤ x
      → IsInt32 (x -ℤ n)
      → IsInt32 (y +ℤ n)
      → transfer get_value a b amount m
        ≡ (ok true, put b (to_string (y +ℤ n)) (put a (to_string (x -ℤ n)) (both get_value a b m)))
  unfolding transfer ◌>>=◌ attempt int write return
  transfer_steps enough fits_x fits_y =
      rw (parsed, load_value get_value a m has_x, load_second get_value a b m has_y, transfer)
        (ground arith)

  transfer_stops : ¬ (n ≤ℤ x) → transfer get_value a b amount m ≡ (ok false, both get_value a b m)
  unfolding transfer ◌>>=◌ attempt int write return
  transfer_stops h =
      rw (parsed, load_value get_value a m has_x, load_second get_value a b m has_y, transfer)
        (ground arith)

-- If two different accounts hold `x` and `y`, the amount `n` is at most `x`, and both results are
-- `int` values, then `transfer` succeeds, takes `n` from the first, adds `n` to the second, and
-- changes no other account.
pub transfer_moves :
    (get_value : Text → Text) (a b amount : Text) (m : Map) {x y n : ℤ}
    → value get_value a m ≡ ok x
    → value get_value b m ≡ ok y
    → stoi amount ≡ some n
    → a ≢ b
    → n ≤ℤ x
    → IsInt32 (x -ℤ n)
    → IsInt32 (y +ℤ n)
    → let r = transfer get_value a b amount m in
      (r.0 ≡ ok true)
      × (value get_value a r.1 ≡ ok (x -ℤ n))
      × (value get_value b r.1 ≡ ok (y +ℤ n))
      × ((c : Text) → c ≢ a → c ≢ b → value get_value c r.1 ≡ value get_value c m)
transfer_moves get_value a b amount m {x} {y} {n} has_x has_y parsed ne enough fits_x fits_y =
    rw (transfer_steps get_value a b amount m has_x has_y parsed enough fits_x fits_y) (
      refl,
      value-written_first get_value a b m (x -ℤ n) (y +ℤ n) fits_x fits_y ne,
      value-written_second get_value a b m (x -ℤ n) (y +ℤ n) fits_x fits_y,
      value-written_other get_value a b m (x -ℤ n) (y +ℤ n) fits_x fits_y,
    )

-- A transfer from an account to itself of an amount within its balance is not refused: if both
-- results are `int` values it succeeds and adds the amount to the balance.
pub transfer_to_self :
    (get_value : Text → Text) (a amount : Text) (m : Map) {x n : ℤ}
    → value get_value a m ≡ ok x
    → stoi amount ≡ some n
    → n ≤ℤ x
    → IsInt32 (x -ℤ n)
    → IsInt32 (x +ℤ n)
    → let r = transfer get_value a a amount m in
      (r.0 ≡ ok true) × (value get_value a r.1 ≡ ok (x +ℤ n))
transfer_to_self get_value a amount m {x} {n} has_x parsed enough fits_x fits_y =
    rw (transfer_steps get_value a a amount m has_x has_x parsed enough fits_x fits_y)
      (refl, value-written_second get_value a a m (x -ℤ n) (x +ℤ n) fits_x fits_y)

-- A transfer of more than the first account holds answers `false`, and every account reads as before.
transfer_refused :
    (get_value : Text → Text) (a b amount : Text) (m : Map) {x y n : ℤ}
    → value get_value a m ≡ ok x
    → value get_value b m ≡ ok y
    → stoi amount ≡ some n
    → ¬ (n ≤ℤ x)
    → let r = transfer get_value a b amount m in
      (r.0 ≡ ok false) × ((c : Text) → value get_value c r.1 ≡ value get_value c m)
transfer_refused get_value a b amount m has_x has_y parsed h =
    rw (transfer_stops get_value a b amount m has_x has_y parsed h)
      (refl, λ c. value-loaded get_value b c (loaded get_value a m) ∙ value-loaded get_value a c m)
