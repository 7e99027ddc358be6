-- ===== src/Queue/Wait.antt =====
-- Waiting and waking: when a blocked `dequeue` may go on, and that it is told so.
use dev_can_linux.Base.{ℕ, ◌<◌, ◌≡◌, true, false, [], some, arith, edom}
use dev_can_linux.Queue.{
  CanMsg, Queue, null, enqueue, make_room, put_slot, queue_shutdown_signal, queue_start_signal,
  dequeue_waits, dequeue_check, destroy_begin, destroy_finish,
}

-- A thread blocked in `dequeue` on `q` is woken by the step to `r`: if it may go on in `r`, then
-- the step has signalled the condition variable.
abbrev pub Wakes : Queue → Queue → Type 0
Wakes q r = dequeue_waits q ≡ true → dequeue_waits r ≡ false → q.cond < r.cond

-- No wake-up is lost: each call by which another thread lets a blocked `dequeue` go on signals.
pub enqueue-Wakes : (q : Queue) (m : CanMsg) → Wakes q (enqueue q m).queue
unfolding enqueue dequeue_waits make_room put_slot
enqueue-Wakes q m waits goes = ground arith

pub shutdown-Wakes : (q : Queue) → Wakes q (queue_shutdown_signal q)
unfolding dequeue_waits queue_shutdown_signal
shutdown-Wakes q = ground arith

pub start-Wakes : (q : Queue) → Wakes q (queue_start_signal q)
unfolding dequeue_waits queue_start_signal
start-Wakes q = ground arith

-- A blocked `dequeue` that wakes after a shutdown returns NULL, and leaves `dequeue_waiting` clear
-- and a signal for `destroy_queue`, which then finishes and gives an empty queue.
pub shutdown_drains :
    (latency clock : ℕ) (q : Queue)
    → let (out, r) = dequeue_check latency clock (destroy_begin q) in
      (out ≡ null)
      × ((destroy_begin q).cond < r.cond)
      × (destroy_finish r ≡ some (record r { size = 0; slots = []; begin = 0; end = 0 }))
unfolding dequeue_check dequeue_waits destroy_begin destroy_finish queue_shutdown_signal
shutdown_drains latency clock q = ground arith

-- A blocked `dequeue` on a queue of size zero returns NULL when it wakes after an `enqueue`, which
-- signals it and reports EDOM.
pub enqueue_zero-releases :
    (latency clock : ℕ) (q : Queue) (m : CanMsg)
    → q.session_up ≡ true
    → q.size ≡ 0
    → let sent = enqueue q m in
      (sent.status ≡ edom)
      × (q.cond < sent.queue.cond)
      × ((dequeue_check latency clock sent.queue).0 ≡ null)
unfolding enqueue dequeue_check dequeue_waits
enqueue_zero-releases latency clock q m up zero_size = ground arith
