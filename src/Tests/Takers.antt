-- ===== src/Tests/Takers.antt =====
-- Threads of the distributed node on three transactions, the third after each of the others.
use icsa_artifact.Base.{ℕ, ◌≡◌, refl, Bool, true, arith, ◌&&◌, ◌==◌, ltb, if◌then◌else◌}
use icsa_artifact.Base.Int.{pos, negsuc, ◌-ℤ◌}
use icsa_artifact.Workers.{start}
use icsa_artifact.Workers.Inv.{IsDag}
use icsa_artifact.Takers.{
  Threads, Reach, IsFresh, processing, begin, next, enter, first_busy, first_load, first_take,
  first_fail, store, turn_round, second_load, second_take, execute, count, pass, lower, leave,
}
use icsa_artifact.Takers.Safe.{taken_by_one}
use icsa_artifact.Takers.Single.{IsAlone, alone-IsFresh}
use icsa_artifact.Takers.Retake.{Steps, retakes}

abbrev fork : ℕ → ℕ → ℕ
fork p i = if ltb p 2 && i == 2 then 1 else 0

abbrev all_here : ℕ → Bool
all_here i = true

fork-IsDag : IsDag fork all_here
fork-IsDag = record {
  binary = λ p i. ground arith;
  upper = λ p i e. ground arith;
  closed = λ p i e. refl;
}

-- Thread 0 loses the second transaction to thread 1, and goes to its second loop with -1; thread 2
-- goes there with 0.
raced : (s : Threads) × (r : Reach 3 fork all_here 0 s) × IsFresh 3 fork r
unfolding start
raced = (
  _,
  next
      (next
        (next
          (next
            (next
              (next
                (next
                  (next
                    (next
                      (next
                        (next (next begin (enter 0 refl))
                          (first_load 0 1 (pos 0) refl (omega arith) refl))
                        (enter 1 refl))
                      (first_load 1 1 (pos 0) refl (omega arith) refl))
                    (first_take 1 1 refl refl))
                  (store 1 1 refl))
                (first_fail 0 1 refl (ground arith)))
              (first_busy 0 2 (negsuc 0) refl (omega arith) (ground arith)))
            (turn_round 0 3 (negsuc 0) refl (omega arith)))
          (enter 2 refl))
        (first_busy 2 2 (pos 0) refl (omega arith) (ground arith)))
      (turn_round 2 3 (pos 0) refl (omega arith)),
  ((((((((((((tt, tt), tt), tt), tt), tt), tt), tt), tt), tt), tt), tt), tt),
)

taken_by_one_example : ◌≡◌ {A = ℕ} 1 1
unfolding raced start
taken_by_one_example = taken_by_one 3 fork all_here fork-IsDag raced.1 raced.2 1 1 1 refl refl

retakes_example :
    (s : Threads) × Steps 3 fork raced.0 s × (s.place 0 ≡ processing 0) × (s.place 2 ≡ processing 0)
unfolding raced start
retakes_example = retakes 3 fork raced.0 0 2 0 (ground arith) (omega arith) refl refl refl

-- From there both complete the first transaction, and the third is processed together with the
-- second, although the matrix has an edge between them.
unsafe :
    (s : Threads) × Reach 3 fork all_here 0 s
    × (s.place 1 ≡ processing 1)
    × (s.place 2 ≡ processing 2)
    × (fork 1 2 ≡ 1)
unfolding raced start ◌-ℤ◌
unsafe = (
  _,
  next
      (next
        (next
          (next
            (next
              (next
                (next
                  (next
                    (next
                      (next
                        (next
                          (next
                            (next
                              (next
                                (next
                                  (next
                                    (next
                                      (next
                                        (next
                                          (next
                                            (next (raced.1)
                                              (second_load 2 0 (pos 0) refl (omega arith) refl))
                                            (second_load 0 0 (negsuc 0) refl (omega arith) refl))
                                          (second_take 2 0 (pos 0) refl refl))
                                        (second_take 0 0 (negsuc 0) refl refl))
                                      (store 2 0 refl))
                                    (store 0 0 refl))
                                  (execute 2 0 refl))
                                (count 2 0 refl))
                              (pass 2 0 1 refl (omega arith) (ground arith)))
                            (lower 2 0 2 refl (omega arith) refl))
                          (leave 2 0 3 refl (omega arith)))
                        (execute 0 0 refl))
                      (count 0 0 refl))
                    (pass 0 0 1 refl (omega arith) (ground arith)))
                  (lower 0 0 2 refl (omega arith) refl))
                (leave 0 0 3 refl (omega arith)))
              (enter 2 refl))
            (first_busy 2 1 (pos 0) refl (omega arith) (ground arith)))
          (first_load 2 2 (pos 0) refl (omega arith) refl))
        (first_take 2 2 refl refl))
      (store 2 2 refl),
  refl,
  refl,
  refl,
)

-- Thread 0 completes the second transaction and takes the first in its second loop.
single : (s : Threads) × (r : Reach 3 fork all_here 0 s) × IsAlone 3 fork 0 r
unfolding start ◌-ℤ◌
single = (
  _,
  next
      (next
        (next
          (next
            (next
              (next
                (next
                  (next
                    (next
                      (next
                        (next
                          (next
                            (next (next begin (enter 0 refl))
                              (first_load 0 1 (pos 0) refl (omega arith) refl))
                            (first_take 0 1 refl refl))
                          (store 0 1 refl))
                        (execute 0 1 refl))
                      (count 0 1 refl))
                    (lower 0 1 2 refl (omega arith) refl))
                  (leave 0 1 3 refl (omega arith)))
                (enter 0 refl))
              (first_busy 0 2 (pos 0) refl (omega arith) (ground arith)))
            (turn_round 0 3 (pos 0) refl (omega arith)))
          (second_load 0 0 (pos 0) refl (omega arith) refl))
        (second_take 0 0 (pos 0) refl refl))
      (store 0 0 refl),
  (
    (
      (
        (((((((((((tt, refl), refl), refl), refl), refl), refl), refl), refl), refl), refl), refl),
        refl,
      ),
      refl,
    ),
    refl,
  ),
)

alone-IsFresh_example : IsFresh 3 fork single.1
alone-IsFresh_example = alone-IsFresh 3 fork 0 single.1 single.2
