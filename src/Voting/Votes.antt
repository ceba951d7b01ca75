-- ===== src/Voting/Votes.antt =====
-- What a cast vote and a registration do to the counts.
use icsa_artifact.Base.{◌≡◌, refl, ap, ◌∙◌, ◌≢◌, true, false, none, some, arith}
use icsa_artifact.Base.Int.{ℤ, pos, IsInt32, ◌+ℤ◌, ◌-ℤ◌, ◌≤ℤ◌}
use icsa_artifact.Text.{Text, bytes, text_eq_refl}
use icsa_artifact.Text.Decimal.{to_string}
use icsa_artifact.Contract.{Map, put, find, ok, ◌>>=◌, attempt, int, write, return}
use icsa_artifact.Contract.Number.{value, value-put}
use icsa_artifact.Contract.Store.{find-put}
use icsa_artifact.Contract.Settle.{
  both, load_value, load_second, value-written_first, value-written_second, value-written_other,
}
use icsa_artifact.Voting.{cast_vote, register_voter, insert_new}

cast_vote_steps :
    (get_value : Text → Text) (a b : Text) (m : Map) {x y : ℤ}
    → value get_value a m ≡ ok x
    → value get_value b m ≡ ok y
    → pos 1 ≤ℤ x
    → IsInt32 (x -ℤ pos 1)
    → IsInt32 (y +ℤ pos 1)
    → cast_vote get_value a b m ≡ (
      ok true,
      put b (to_string (y +ℤ pos 1)) (put a (to_string (x -ℤ pos 1)) (both get_value a b m)),
    )
unfolding cast_vote ◌>>=◌ attempt int write return
cast_vote_steps get_value a b m has_x has_y enough fits_x fits_y =
    rw (load_value get_value a m has_x, load_second get_value a b m has_y, cast_vote) (ground arith)

-- If a voter has `x` votes, at least one, another name has `y`, and `x - 1` and `y + 1` are `int`
-- values, then a vote of the first for the second succeeds: the voter loses exactly one vote, the
-- candidate gains exactly one, and no other count changes.
pub cast_vote_moves_one :
    (get_value : Text → Text) (voter candidate : Text) (m : Map) {x y : ℤ}
    → value get_value voter m ≡ ok x
    → value get_value candidate m ≡ ok y
    → voter ≢ candidate
    → pos 1 ≤ℤ x
    → IsInt32 (x -ℤ pos 1)
    → IsInt32 (y +ℤ pos 1)
    → let r = cast_vote get_value voter candidate m in
      (r.0 ≡ ok true)
      × (value get_value voter r.1 ≡ ok (x -ℤ pos 1))
      × (value get_value candidate r.1 ≡ ok (y +ℤ pos 1))
      × ((c : Text) → c ≢ voter → c ≢ candidate → value get_value c r.1 ≡ value get_value c m)
cast_vote_moves_one get_value a b m {x} {y} has_x has_y ne enough fits_x fits_y =
    rw (cast_vote_steps get_value a b m has_x has_y enough fits_x fits_y) (
      refl,
      value-written_first get_value a b m (x -ℤ pos 1) (y +ℤ pos 1) fits_x fits_y ne,
      value-written_second get_value a b m (x -ℤ pos 1) (y +ℤ pos 1) fits_x fits_y,
      value-written_other get_value a b m (x -ℤ pos 1) (y +ℤ pos 1) fits_x fits_y,
    )

module _ (name : Text) (m : Map) where
  register_fresh :
      find name m ≡ none → register_voter name m ≡ (ok true, put name (bytes "10000") m)
  unfolding register_voter insert_new
  register_fresh h = rw (h, insert_new)

  register_taken : {v : Text} → find name m ≡ some v → register_voter name m ≡ (ok false, m)
  unfolding register_voter insert_new
  register_taken h = rw (h, insert_new)

module _ (get_value : Text → Text) (name : Text) (m : Map) where
  find-registered : find name (put name (bytes "10000") m) ≡ some (bytes "10000")
  find-registered = find-put name name (bytes "10000") m ∙ rw (text_eq_refl name)

  value-registered : value get_value name (put name (bytes "10000") m) ≡ ok (pos 10000)
  unfolding to_string
  value-registered =
      value-put get_value name name (pos 10000) m (omega arith) ∙ rw (text_eq_refl name)

-- Registering looks at the map alone. A voter whose count is not yet in the map is accepted, also
-- with a count in the global state: the count becomes 10000, and a second registration is refused.
pub register_voter_resets :
    (get_value : Text → Text) (name : Text) (m : Map)
    → find name m ≡ none
    → let r = register_voter name m in
      (r.0 ≡ ok true)
      × (value get_value name r.1 ≡ ok (pos 10000))
      × ((register_voter name r.1).0 ≡ ok false)
register_voter_resets get_value name m h = rw (register_fresh name m h) (
  refl,
  value-registered get_value name m,
  ap (λ r. r.0)
      (register_taken name (put name (bytes "10000") m) (find-registered get_value name m)),
)
