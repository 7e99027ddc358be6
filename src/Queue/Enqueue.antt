-- ===== src/Queue/Enqueue.antt =====
-- What `enqueue` does to the messages that the queue holds.
use dev_can_linux.Base.{
  ℕ, ◌+◌, ◌-◌, ◌<◌, ◌≡◌, ◌≢◌, true, ◌∷◌, ◌++◌, [], arith, length, length-span, drop-span, span,
  span_none, span-set_below, span-set_end, drop, ◌==◌, eok, ◌↔◌, if◌then◌else◌, set,
  drop-append_length,
}
use mathlib.Core.List.{append_assoc, append-nil}
use dev_can_linux.Queue.{CanMsg, Queue, make_room, put_slot, enqueue}
use dev_can_linux.Queue.Fifo.{contents, count}
use dev_can_linux.Queue.Invariant.{IsValid, make_room-IsValid, make_room-end, length-contents}

-- How many of the oldest messages `enqueue` gives up: two where the array is full from its first
-- slot to its last, one where `end` has caught up with `begin`.
unfoldable pub lost : Queue → ℕ
lost q =
    if q.end == q.size
    then (if q.begin == 0 then 2 else 0)
    else if q.begin == q.end + 1
    then 1
    else 0

-- The state from which the wrap of `end` makes the queue look empty.
abbrev pub WrapsOntoBegin : Queue → Type 0
WrapsOntoBegin q = (q.end ≡ q.size) × (q.begin ≡ 1)

-- Writing the slot at `end` appends, unless `end` then meets `begin`.
contents-put_slot :
    (m : CanMsg) {q : Queue}
    → IsValid q
    → q.end < q.size
    → q.begin ≢ q.end + 1
    → contents (put_slot m q) ≡ contents q ++ (m ∷ [])
unfolding contents put_slot
contents-put_slot m {q} v h ne = ground (
  arith,
  span-set_end slots end begin (end - begin) m,
  span-set_below slots end begin (size - begin) m,
  span-set_end slots end 0 end m,
  append_assoc (span slots begin (size - begin)) (span slots 0 end) (m ∷ []),
)
  where
    open q use {slots, begin, end, size}

-- `make_room` forgets the oldest `lost q` messages, if it does not wrap onto `begin`.
contents-make_room :
    {q : Queue}
    → IsValid q
    → ¬ (WrapsOntoBegin q)
    → contents (make_room q).0 ≡ drop (lost q) (contents q)
unfolding contents make_room lost
contents-make_room {q} v ok = ground (
  arith,
  drop-span slots 0 size 2,
  drop-span slots begin (size - begin) 1,
  span_none slots 0,
  drop-append_length (span slots begin (size - begin)) (span slots 0 end) 1,
  length-span slots begin (size - begin),
  append-nil (span slots begin (size - begin)),
  span_none slots (begin + 1),
)
  where
    open q use {slots, begin, end, size}

make_room-gap :
    {q : Queue} → IsValid q → ¬ (WrapsOntoBegin q) → (make_room q).0.begin ≢ (make_room q).0.end + 1
unfolding make_room
make_room-gap v ok = ground arith

-- On a queue that is up and whose `end` does not wrap onto `begin`, `enqueue` returns EOK, appends
-- the message, and forgets the `lost q` oldest ones.
pub enqueue-append :
    (m : CanMsg) {q : Queue}
    → IsValid q
    → q.session_up ≡ true
    → ¬ (WrapsOntoBegin q)
    → ((enqueue q m).status ≡ eok)
      × (contents (enqueue q m).queue ≡ drop (lost q) (contents q) ++ (m ∷ []))
unfolding enqueue
enqueue-append m {q} v up ok =
    let w = make_room-IsValid v in
    ground
      (arith, contents-make_room v ok, make_room-gap v ok, contents-put_slot m w (make_room-end v))

-- From a full array whose oldest message has been taken, `enqueue` returns EOK and loses every
-- message, the new one included.
pub enqueue-wraps :
    (m : CanMsg) {q : Queue}
    → IsValid q
    → q.session_up ≡ true
    → WrapsOntoBegin q
    → ((enqueue q m).status ≡ eok)
      × (length (contents q) ≡ q.size - 1)
      × (contents (enqueue q m).queue ≡ [])
unfolding enqueue make_room put_slot contents count
enqueue-wraps m {q} v up w = ground (arith, length-contents v, span_none (set q.slots 0 m) 1)

-- With a handler installed, `enqueue` calls it in just one of the cases in which it gives up
-- messages: where it gives up one and `begin` need not wrap to the first slot. The two messages
-- lost at a full array, and the one lost when `begin` wraps, go unreported.
pub enqueue-reports :
    (m : CanMsg) {q : Queue}
    → IsValid q
    → q.session_up ≡ true
    → q.dropped_packet ≡ true
    → ((enqueue q m).reported ≡ true) ↔ ((lost q ≡ 1) × (q.begin + 1 ≢ q.size))
unfolding enqueue make_room lost
enqueue-reports m {q} v up handler = ground arith
