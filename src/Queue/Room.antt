-- ===== src/Queue/Room.antt =====
-- `enqueue` of src/queue.c on a queue with room.
use dev_can_linux.Base.{◌+◌, ◌<◌, ◌≡◌, ap, ◌∙◌, true, [], ◌∷◌, ◌++◌, arith, drop, length}
use dev_can_linux.Queue.{CanMsg, Queue, enqueue, make_room, put_slot}
use dev_can_linux.Queue.Fifo.{contents, count}
use dev_can_linux.Queue.Invariant.{IsValid, enqueue-IsValid, length-contents}
use dev_can_linux.Queue.Enqueue.{lost, WrapsOntoBegin, enqueue-append}

enqueue-keeps :
    (m : CanMsg) (q : Queue)
    → ((enqueue q m).queue.session_up ≡ q.session_up) × ((enqueue q m).queue.size ≡ q.size)
unfolding enqueue make_room put_slot
enqueue-keeps m q = ground arith

room-lost : (q : Queue) → IsValid q → count q + 1 < q.size → (lost q ≡ 0) × (¬ (WrapsOntoBegin q))
unfolding lost count
room-lost q v room = ground (arith, v.roomy)

-- A queue with room for one message more, and still a free slot, takes it and loses none.
pub enqueue-room :
    (m : CanMsg) (q : Queue)
    → IsValid q
    → q.session_up ≡ true
    → length (contents q) + 1 < q.size
    → let u = (enqueue q m).queue in
      (contents u ≡ contents q ++ (m ∷ [])) × IsValid u × (u.session_up ≡ true) × (u.size ≡ q.size)
enqueue-room m q v up room =
    let size = length-contents v in
    let (up', size') = enqueue-keeps m q in
    let (none_lost, apart) = room-lost q v (omega (arith, room, size)) in
    (
      (enqueue-append m v up apart).1 ∙ ap (λ n. drop n (contents q) ++ (m ∷ [])) none_lost,
      enqueue-IsValid m v,
      up' ∙ up,
      size',
    )
