-- ===== src/Queue/Fifo.antt =====
-- The ring buffer as a first-in first-out queue.
use icsa_artifact.Base.{
  ℕ, zero, suc, ◌+◌, ◌-◌, ◌%◌, ◌<◌, ◌≡◌, refl, ◌∙◌, ap, ap₂, Bool, true, false, Option, none, some,
  List, [], ◌∷◌, ◌++◌, arith, ltb, ltb→lt, leb, ◌==◌, if◌then◌else◌, length, Bool-cases, inl, inr,
}
use icsa_artifact.Text.{Text}
use icsa_artifact.Queue.{LockFreeQueue, queue_size, write_slot, push, pop}

-- `g 0`, `g 1`, …, `n` of them.
pub listing : (ℕ → Text) → ℕ → List Text
listing g zero = []
listing g (suc n) = g 0 ∷ listing (λ i. g (suc i)) n

listing_same : (g h : ℕ → Text) (n : ℕ) → ((i : ℕ) → i < n → g i ≡ h i) → listing g n ≡ listing h n
unfolding listing
listing_same g h zero same = refl
listing_same g h (suc n) same =
    ap₂ ◌∷◌ (same 0 (omega arith))
      (listing_same (λ i. g (suc i)) (λ i. h (suc i)) n (λ i l. same (suc i) (omega arith)))

listing_end : (g : ℕ → Text) (n : ℕ) → listing g (suc n) ≡ listing g n ++ (g n ∷ [])
unfolding listing
listing_end g zero = refl
listing_end g (suc n) = ap (λ l. g 0 ∷ l) (listing_end (λ i. g (suc i)) n)

length-listing : (g : ℕ → Text) (n : ℕ) → length (listing g n) ≡ n
unfolding listing
length-listing g zero = refl
length-listing g (suc n) = ap suc (length-listing (λ i. g (suc i)) n)

-- The index after a slot's number, which is below twice the size.
abbrev wrap : ℕ → ℕ
wrap i = if ltb i queue_size then i else i - queue_size

-- How many texts are in the queue.
abbrev pub count : LockFreeQueue → ℕ
count q = if leb q.tail q.head then q.head - q.tail else q.head + queue_size - q.tail

-- The texts in the queue, the oldest first.
pub contents : LockFreeQueue → List Text
unfolding listing
contents q = listing (λ i. q.buffer (wrap (q.tail + i))) (count q)

-- Both indices are slots of the array.
pub record InRange (q : LockFreeQueue) : Type 0 where
  pub head : q.head < queue_size
  pub tail : q.tail < queue_size

next-wrap : (i : ℕ) → i < queue_size → (i + 1) % queue_size ≡ wrap (i + 1)
next-wrap i h = ground arith

full_test :
    (h t : ℕ)
    → h < queue_size
    → t < queue_size
    → (wrap (h + 1) == t)
      ≡ (if ltb (if leb t h then h - t else h + queue_size - t) 29999 then false else true)
full_test h t hh ht = ground arith

length-contents : (q : LockFreeQueue) → length (contents q) ≡ count q
unfolding contents
length-contents q = length-listing (λ i. q.buffer (wrap (q.tail + i))) (count q)

-- A queue as a list of at most 29999 texts.
pub list_push : Text → List Text → Bool × List Text
list_push x xs = if ltb (length xs) 29999 then (true, xs ++ (x ∷ [])) else (false, xs)

pub list_pop : List Text → Option Text × List Text
list_pop [] = (none, [])
list_pop (x ∷ xs) = (some x, xs)

module _ (q : LockFreeQueue) (r : InRange q) where
  -- The queue after a push that finds room.
  abbrev pushed : Text → LockFreeQueue
  pushed x = record q { buffer = write_slot q.buffer q.head x; head = wrap (q.head + 1) }

  count-pushed : (x : Text) → count q < 29999 → count (pushed x) ≡ suc (count q)
  count-pushed x room = ground (arith, r.head, r.tail)

  at_head : wrap (q.tail + count q) ≡ q.head
  at_head = ground (arith, r.head, r.tail)

  below_head : (i : ℕ) → count q < 29999 → i < count q → (q.head == wrap (q.tail + i)) ≡ false
  below_head i room h = ground (arith, r.head, r.tail)

  contents-pushed : (x : Text) → count q < 29999 → contents (pushed x) ≡ contents q ++ (x ∷ [])
  unfolding contents
  contents-pushed x room =
      let after : ℕ → Text = λ i. write_slot q.buffer q.head x (wrap (q.tail + i)) in
      ap (listing after) (count-pushed x room)
      ∙ listing_end after (count q)
      ∙ ap₂ (λ l y. l ++ (y ∷ []))
          (listing_same after (λ i. q.buffer (wrap (q.tail + i))) (count q)
            (λ i h. rw (below_head i room h) refl))
          (rw at_head (ground arith))

  pub push-lists : (x : Text) → ((push x q).0, contents (push x q).1) ≡ list_push x (contents q)
  unfolding push list_push
  push-lists x = elim (Bool-cases (ltb (count q) 29999)) [
    | inl room ↦
        rw
          (
            push,
            next-wrap q.head r.head,
            full_test q.head q.tail r.head r.tail,
            room,
            list_push,
            length-contents q,
            room,
          )
          (ap (λ l. (true, l)) (contents-pushed x (ltb→lt (count q) 29999 room)))
    | inr full ↦
        rw
          (
            push,
            next-wrap q.head r.head,
            full_test q.head q.tail r.head r.tail,
            full,
            list_push,
            length-contents q,
            full,
          )
          refl
  ]

  contents_nil : (q.tail == q.head) ≡ true → contents q ≡ []
  unfolding contents listing
  contents_nil same =
      let none_left : count q ≡ 0 = ground (arith, r.head, r.tail) in
      ap (listing (λ i. q.buffer (wrap (q.tail + i)))) none_left

  -- The queue after a pop that finds a text.
  abbrev popped : LockFreeQueue
  popped = record q { tail = wrap (q.tail + 1) }

  count-popped : (q.tail == q.head) ≡ false → count q ≡ suc (count popped)
  count-popped differ = ground (arith, r.head, r.tail)

  next_slot :
      (i : ℕ)
      → i < count popped
      → (q.tail == q.head) ≡ false
      → wrap (q.tail + suc i) ≡ wrap (wrap (q.tail + 1) + i)
  next_slot i h differ = ground (arith, r.head, r.tail)

  contents-popped : (q.tail == q.head) ≡ false → contents q ≡ q.buffer q.tail ∷ contents popped
  unfolding contents listing
  contents-popped differ =
      let here : wrap (q.tail + 0) ≡ q.tail = ground (arith, r.tail) in
      ap (listing (λ i. q.buffer (wrap (q.tail + i)))) (count-popped differ)
      ∙ ap₂ ◌∷◌ (ap q.buffer here) (
          listing_same (λ i. q.buffer (wrap (q.tail + suc i)))
            (λ i. q.buffer (wrap (wrap (q.tail + 1) + i))) (count popped)
            (λ i h. ap q.buffer (next_slot i h differ)))

  pub pop-lists : ((pop q).0, contents (pop q).1) ≡ list_pop (contents q)
  unfolding pop list_pop
  pop-lists = elim (Bool-cases (q.tail == q.head)) [
    | inl same ↦ rw (pop, same, contents_nil same) refl
    | inr differ ↦ rw (pop, differ, next-wrap q.tail r.tail, contents-popped differ) refl
  ]

  pub push-InRange : (x : Text) → InRange (push x q).1
  unfolding push
  push-InRange x = elim (Bool-cases (wrap (q.head + 1) == q.tail)) [
    | inl full ↦ rw (push, next-wrap q.head r.head, full) r
    | inr room ↦
        rw (push, next-wrap q.head r.head, room)
          (record { head = ground (arith, r.head); tail = r.tail })
  ]

  pub pop-InRange : InRange (pop q).1
  unfolding pop
  pop-InRange = elim (Bool-cases (q.tail == q.head)) [
    | inl same ↦ rw (pop, same) r
    | inr differ ↦
        rw (pop, differ, next-wrap q.tail r.tail)
          (record { head = r.head; tail = ground (arith, r.tail) })
  ]

-- A call on the queue and its answer.
pub data Call : Type 0 where
  push_call : Text → Call
  pop_call : Call

pub data Answer : Type 0 where
  pushed_answer : Bool → Answer
  popped_answer : Option Text → Answer

-- The answers of a sequence of calls, of the ring buffer and of the list.
pub run_queue : List Call → LockFreeQueue → List Answer
unfolding push pop
run_queue [] q = []
run_queue (push_call x ∷ calls) q = pushed_answer (push x q).0 ∷ run_queue calls (push x q).1
run_queue (pop_call ∷ calls) q = popped_answer (pop q).0 ∷ run_queue calls (pop q).1

pub run_list : List Call → List Text → List Answer
unfolding list_push list_pop
run_list [] xs = []
run_list (push_call x ∷ calls) xs =
    pushed_answer (list_push x xs).0 ∷ run_list calls (list_push x xs).1
run_list (pop_call ∷ calls) xs = popped_answer (list_pop xs).0 ∷ run_list calls (list_pop xs).1

-- From a queue with both indices in the array, any sequence of `push` and `pop` gives the answers
-- that a list gives to which `push` appends if it has fewer than 29999 texts, and from which `pop`
-- takes the first.
pub queue_is_fifo :
    (calls : List Call) (q : LockFreeQueue)
    → InRange q
    → run_queue calls q ≡ run_list calls (contents q)
unfolding run_queue run_list
queue_is_fifo [] q r = refl
queue_is_fifo (push_call x ∷ calls) q r =
    let e = push-lists q r x in
    ap₂ (λ a l. pushed_answer a ∷ l) (ap (λ p. p.0) e)
      (queue_is_fifo calls (push x q).1 (push-InRange q r x) ∙ ap (λ p. run_list calls p.1) e)
queue_is_fifo (pop_call ∷ calls) q r =
    let e = pop-lists q r in
    ap₂ (λ a l. popped_answer a ∷ l) (ap (λ p. p.0) e)
      (queue_is_fifo calls (pop q).1 (pop-InRange q r) ∙ ap (λ p. run_list calls p.1) e)
