-- ===== src/Queue/Ready.antt =====
-- `dequeue` on a queue that has a message and need not wait.
use dev_can_linux.Base.{
  length, sym, ◌==◌, ℕ, ◌<◌, ◌≡◌, ◌≢◌, refl, ap, ◌∙◌, true, false, some, List, ◌∷◌, [], arith,
}
use dev_can_linux.Queue.{
  enqueue, null, dequeue_peek_noblock, CanMsg, Queue, dequeue_noblock, slot, message_at, is_stale,
  advance, dequeue, dequeue_enter, dequeue_check, dequeue_waits,
}
use dev_can_linux.Queue.Fifo.{contents, count}
use dev_can_linux.Queue.Invariant.{
  IsValid, length-contents, advance-IsValid, message_at-begin, take_front_lem,
}
use dev_can_linux.Queue.Take.{loop-slot, noblock_round-some, contents-empty, contents-advance}

abbrev idle : Queue → Queue
idle q = record q { dequeue_waiting = false }

dequeue_takes :
    (clock : ℕ) (q : Queue) (m : CanMsg)
    → q.session_up ≡ true
    → q.stopped ≡ false
    → q.begin ≢ q.end
    → 0 < q.size
    → message_at q q.begin ≡ some m
    → dequeue 0 clock q ≡ (slot q.begin, advance (idle q))
unfolding dequeue dequeue_enter dequeue_check dequeue_waits is_stale
dequeue_takes clock q m up runs ne pos at = ground (arith, take_front_lem 0 clock (idle q) m at)

slots-advance-idle : (q : Queue) → (advance (idle q)).slots ≡ q.slots
unfolding advance
slots-advance-idle q = ground arith

pub session_up-advance : (q : Queue) → (advance q).session_up ≡ q.session_up
unfolding advance
session_up-advance q = ground arith

contents-idle : (q : Queue) → contents q ≡ contents (idle q)
unfolding contents
contents-idle q = refl

contents-begin :
    {q : Queue} (m : CanMsg) (rest : List CanMsg)
    → IsValid q
    → contents q ≡ m ∷ rest
    → (q.begin ≢ q.end) × (message_at q q.begin ≡ some m) × (contents (advance (idle q)) ≡ rest)
contents-begin {q} m rest v e =
    let (n, at) = message_at-begin v in
    let ne : q.begin ≢ q.end = ground (arith, contents-empty v) in
    let both : contents q ≡ n ∷ contents (advance (idle q)) =
      contents-idle q ∙ contents-advance n (omega (arith, v)) ne at in
    (ne, at ∙ ap some (cc), cc)

-- `dequeue` with no latency limit on a queue that is up, not stopped and not empty takes the
-- oldest message at once.
pub dequeue-ready :
    (clock : ℕ) {q : Queue} (m : CanMsg) (rest : List CanMsg)
    → IsValid q
    → q.session_up ≡ true
    → q.stopped ≡ false
    → contents q ≡ m ∷ rest
    → let (out, r) = dequeue 0 clock q in
      (out ≡ slot q.begin) × (message_at r q.begin ≡ some m) × (contents r ≡ rest) × IsValid r
dequeue-ready clock {q} m rest v up runs e =
    let (ne, at, left) = contents-begin m rest v e in
    rw (dequeue_takes clock q m up runs ne (omega (arith, v)) at)
      (refl, rw slots-advance-idle at, left, advance-IsValid (omega (arith, v)))

noblock_takes :
    (clock : ℕ → ℕ) (q : Queue) (m : CanMsg)
    → q.session_up ≡ true
    → q.begin ≢ q.end
    → (q.size == 0) ≡ false
    → message_at q q.begin ≡ some m
    → dequeue_noblock 1 0 clock q ≡ (slot q.begin, advance q)
unfolding dequeue_noblock is_stale
noblock_takes clock q m up ne size at =
    simp up
      (loop-slot 0 0 clock q (advance q) q.begin (noblock_round-some 0 (clock 0) q m ne size at))

-- `dequeue_noblock` with no latency limit needs one round to take the oldest message.
pub dequeue_noblock-one :
    (clock : ℕ → ℕ) {q : Queue} (m : CanMsg) (rest : List CanMsg)
    → IsValid q
    → q.session_up ≡ true
    → contents q ≡ m ∷ rest
    → (dequeue_noblock 1 0 clock q ≡ (slot q.begin, advance q))
      × (q.begin ≢ q.end)
      × (message_at q q.begin ≡ some m)
      × (contents (advance q) ≡ rest)
dequeue_noblock-one clock {q} m rest v up e =
    let (n, at) = message_at-begin v in
    let ne : q.begin ≢ q.end = ground (arith, contents-empty v) in
    let both = contents-advance n v ne at in
    let got : message_at q q.begin ≡ some m = at ∙ ap some (cc) in
    (noblock_takes clock q m up ne (ground (arith, v)) got, ne, got, cc)

contents-begin_end : {q : Queue} → IsValid q → contents q ≡ [] → q.begin ≡ q.end
unfolding count
contents-begin_end {q} v e =
    let none_left : count q ≡ 0 = sym (length-contents v) ∙ ap length e in ground (arith, v)

-- `dequeue_peek_noblock` gives NULL on an empty queue, and the oldest message's slot on another.
pub peek_noblock-null : {q : Queue} → IsValid q → contents q ≡ [] → dequeue_peek_noblock q ≡ null
unfolding dequeue_peek_noblock
peek_noblock-null {q} v e = ground (arith, contents-begin_end v e)

pub peek_noblock-slot :
    {q : Queue}
    → IsValid q
    → q.session_up ≡ true
    → q.begin ≢ q.end
    → dequeue_peek_noblock q ≡ slot q.begin
unfolding dequeue_peek_noblock
peek_noblock-slot {q} v up ne = ground (arith, v)

-- `enqueue` leaves a queue that is down as it was.
pub enqueue-down : (m : CanMsg) (q : Queue) → q.session_up ≡ false → (enqueue q m).queue ≡ q
unfolding enqueue
enqueue-down m q down = rw down refl
