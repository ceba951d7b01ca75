-- ===== src/Queue.antt =====
-- singleNode-serial/node/transactionQueue.h (the file of that name in singleNode-parallel is the
-- same): the ring buffer of transactions between a producer and a consumer.
pub mod Fifo
use icsa_artifact.Base.{
  ℕ, zero, suc, ◌+◌, ◌%◌, ◌==◌, Bool, true, false, Option, none, some, if◌then◌else◌, List, [],
}
use icsa_artifact.Text.{Text}

-- `QUEUE_SIZE`
abbrev pub queue_size : ℕ
queue_size = 30000

-- `class LockFreeQueue`; the array is the function of its slots.
pub record LockFreeQueue : Type 0 where
  pub buffer : ℕ → Text
  pub head : ℕ
  pub tail : ℕ

-- `buffer[i] = item`
abbrev pub write_slot : (ℕ → Text) → ℕ → Text → ℕ → Text
write_slot buffer i item j = if i == j then item else buffer j

-- `push`
unfoldable pub push : Text → LockFreeQueue → Bool × LockFreeQueue
push item q =
    let next_head = (q.head + 1) % queue_size in
    if next_head == q.tail
    then (false, q)
    else (true, record q { buffer = write_slot q.buffer q.head item; head = next_head })

-- `pop`; `none` is the answer `false`, which leaves the caller's text alone.
unfoldable pub pop : LockFreeQueue → Option Text × LockFreeQueue
pop q =
    if q.tail == q.head
    then (none, q)
    else (some (q.buffer q.tail), record q { tail = (q.tail + 1) % queue_size })

-- The queue of `getInstance`.
abbrev pub empty_queue : LockFreeQueue
empty_queue = record { buffer = λ i. []; head = 0; tail = 0 }
