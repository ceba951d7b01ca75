-- ===== src/Tests/Queues.antt =====
-- The ring buffer on a few calls.
use icsa_artifact.Base.{◌≡◌, [], ◌∷◌, arith}
use icsa_artifact.Text.{bytes}
use icsa_artifact.Queue.{LockFreeQueue, empty_queue}
use icsa_artifact.Queue.Fifo.{
  InRange, contents, run_queue, run_list, push_call, pop_call, queue_is_fifo,
}

empty-InRange : InRange empty_queue
empty-InRange = record { head = omega arith; tail = omega arith }

-- Two slots before the end of the array.
abbrev late_queue : LockFreeQueue
late_queue = record { buffer = λ i. []; head = 29999; tail = 29998 }

queue_is_fifo_example :
    run_queue
      (push_call (bytes "a") ∷ push_call (bytes "b") ∷ pop_call ∷ pop_call ∷ pop_call ∷ [])
      late_queue
    ≡ run_list
        (push_call (bytes "a") ∷ push_call (bytes "b") ∷ pop_call ∷ pop_call ∷ pop_call ∷ [])
        (contents late_queue)
queue_is_fifo_example =
    queue_is_fifo
      (push_call (bytes "a") ∷ push_call (bytes "b") ∷ pop_call ∷ pop_call ∷ pop_call ∷ [])
      late_queue (record { head = omega arith; tail = omega arith })
