-- ===== src/Queue/Invariant.antt =====
-- The representation invariant of `queue_t`, and that every operation of queue.c keeps it.
use dev_can_linux.Base.{
  ℕ, suc, ◌-◌, ◌≤◌, ◌<◌, ◌≡◌, ◌≢◌, List, some, arith, length, length-set, length-span,
  length-append, get_elem?-some, span, if◌then◌else◌,
}
use dev_can_linux.Queue.{
  CanMsg, Queue, signal, fresh_queue, make_room, put_slot, enqueue, advance, take_front, slot,
  retry, message_at, is_stale,
}
use dev_can_linux.Queue.Fifo.{contents, count}

-- The array has `size` slots, three at least, `begin` is a slot, and `end` is a slot or the end of the array.
pub record IsValid (q : Queue) : Type 0 where
  pub roomy : 3 ≤ q.size
  pub storage : length q.slots ≡ q.size
  pub begin_in : q.begin < q.size
  pub end_in : q.end ≤ q.size

pub length-contents : {q : Queue} → IsValid q → length (contents q) ≡ count q
unfolding contents count
length-contents {q} v = ground (
  arith,
  length-append (span q.slots q.begin (q.size - q.begin)) (span q.slots 0 q.end),
  length-span q.slots q.begin (q.end - q.begin),
  length-span q.slots q.begin (q.size - q.begin),
  length-span q.slots 0 q.end,
)

pub fresh_queue-IsValid :
    (size : ℕ) (block : List CanMsg)
    → 3 ≤ size
    → length block ≡ size
    → IsValid (fresh_queue size block)
unfolding fresh_queue
fresh_queue-IsValid size block h e = ground arith

pub make_room-IsValid : {q : Queue} → IsValid q → IsValid (make_room q).0
unfolding make_room
make_room-IsValid {q} v = ground arith

-- After `make_room` there is a slot to write.
pub make_room-end : {q : Queue} → IsValid q → (make_room q).0.end < (make_room q).0.size
unfolding make_room
make_room-end {q} v = ground arith

pub put_slot-IsValid :
    (m : CanMsg) {q : Queue} → IsValid q → q.end < q.size → IsValid (put_slot m q)
unfolding put_slot
put_slot-IsValid m {q} v h = ground (arith, length-set q.slots q.end m)

-- `size` is never changed but by `destroy_queue`.
pub make_room-size : (q : Queue) → (make_room q).0.size ≡ q.size
unfolding make_room
make_room-size q = ground arith

pub signal-IsValid : {q : Queue} → IsValid q → IsValid (signal q)
signal-IsValid v = ground arith

-- `enqueue` keeps the invariant on every branch.
pub enqueue-IsValid : (m : CanMsg) {q : Queue} → IsValid q → IsValid (enqueue q m).queue
unfolding enqueue
enqueue-IsValid m {q} v = ground (arith, put_slot-IsValid m (make_room-IsValid v) (make_room-end v))

pub advance-IsValid : {q : Queue} → IsValid q → IsValid (advance q)
unfolding advance
advance-IsValid v = ground arith

pub advance-count : {q : Queue} → IsValid q → q.begin ≢ q.end → count q ≡ suc (count (advance q))
unfolding advance count
advance-count v ne = ground arith

-- In a valid queue the slot at `begin` can be read.
pub message_at-begin : {q : Queue} → IsValid q → (m : CanMsg) × (message_at q q.begin ≡ some m)
message_at-begin {q} v = get_elem?-some q.slots q.begin (omega arith)

-- `take_front` looks at the message at `begin`, and moves on by one.
pub take_front_lem :
    (latency clock : ℕ) (q : Queue) (m : CanMsg)
    → message_at q q.begin ≡ some m
    → take_front latency clock q
      ≡ (if is_stale latency clock m then retry else slot q.begin, advance q)
unfolding take_front
take_front_lem latency clock q m e = rw (e, take_front)

pub take_front-IsValid :
    (latency clock : ℕ) {q : Queue} → IsValid q → IsValid (take_front latency clock q).1
take_front-IsValid latency clock {q} v =
    let (m, e) = message_at-begin v in rw (take_front_lem latency clock q m e) (advance-IsValid v)
