-- ===== src/Queue/Tests.antt =====
-- The queue's theorems at small queues, and runs of its functions.
use dev_can_linux.Base.{
  ℕ, ◌<◌, ◌≡◌, refl, ◌≢◌, inl, true, false, List, [], ◌∷◌, ◌++◌, none, some, arith, drop, span, eok,
  efault, enomem, errno,
}
use dev_can_linux.Queue.{
  CanMsg, Queue, fresh_queue, create_queue, enqueue, slot, null, fault, dequeue_noblock, dequeue,
  dequeue_check, dequeue_waits, advance, make_room, put_slot, noblock_loop, noblock_round,
  take_front, is_stale, queue_shutdown_signal, dequeue_enter,
}
use dev_can_linux.Queue.Fifo.{contents, count}
use dev_can_linux.Queue.Invariant.{IsValid}
use dev_can_linux.Queue.Enqueue.{lost, enqueue-append}
use dev_can_linux.Queue.Take.{Takes, dequeue_noblock-Takes}
use dev_can_linux.Queue.Abstract.{
  AbstractQueue, Bounded, take_from, popped, view, AbstractQueue-Bounded,
}
use dev_can_linux.Queue.System.{
  System, outside, blocked, Reach, here, next, call, shut, initial, Reach-in_range, Reach-heard,
}

abbrev msg : ℕ → CanMsg
msg n = record {
  mid = n;
  timestamp = n;
  is_extended_mid = true;
  is_remote_frame = false;
  len = 1;
  dat = n ∷ [];
}

abbrev block : List CanMsg
block = msg 10 ∷ msg 20 ∷ msg 30 ∷ []

abbrev queue_at : (begin end : ℕ) → Queue
queue_at b e = record {
  size = 3;
  slots = block;
  begin = b;
  end = e;
  cond = 0;
  session_up = true;
  dequeue_waiting = false;
  stopped = false;
  wake_pending = false;
  dropped_packet = true;
}

abbrev pair : Queue
pair = record {
  size = 2;
  slots = msg 10 ∷ msg 20 ∷ [];
  begin = 0;
  end = 2;
  cond = 0;
  session_up = true;
  dequeue_waiting = false;
  stopped = false;
  wake_pending = false;
  dropped_packet = true;
}

queue_at-IsValid : IsValid (queue_at 2 1) × IsValid (queue_at 1 3) × IsValid (queue_at 0 3)
queue_at-IsValid = omega arith

create_codes :
    (create_queue false (some 3) eok eok (some block) ≡ (efault, none))
    × (create_queue true (some 3) eok eok none ≡ (enomem, none))
    × (create_queue true (some 3) (errno 11) eok (some block) ≡ (errno 11, none))
    × (create_queue true (some 3) eok eok (some block) ≡ (eok, some (fresh_queue 3 block)))
unfolding create_queue
create_codes = (refl, refl, refl, refl)

-- a full array: two messages are lost
enqueue_full : contents (enqueue (queue_at 0 3) (msg 40)).queue ≡ msg 30 ∷ msg 40 ∷ []
unfolding enqueue make_room put_slot contents span
enqueue_full = refl

enqueue-append_example :
    ((enqueue (queue_at 2 1) (msg 40)).status ≡ eok)
    × (contents (enqueue (queue_at 2 1) (msg 40)).queue
        ≡ drop (lost (queue_at 2 1)) (contents (queue_at 2 1)) ++ (msg 40 ∷ []))
enqueue-append_example = enqueue-append (msg 40) queue_at-IsValid.0 refl (omega arith)

-- at 32 ms with a limit of 4 ms the messages of 10 ms and 20 ms are stale
dequeue_skips : (dequeue_noblock 4 4 (λ i. 32000) (queue_at 0 3)).0 ≡ slot 2
unfolding dequeue_noblock noblock_loop noblock_round take_front advance is_stale
dequeue_skips = refl

dequeue_noblock-Takes_example :
    Takes 4 (λ i. 32000) (queue_at 0 3) (dequeue_noblock 4 4 (λ i. 32000) (queue_at 0 3))
unfolding count
dequeue_noblock-Takes_example =
    dequeue_noblock-Takes 4 4 (λ i. 32000) queue_at-IsValid.2 refl (omega arith)

abbrev empty_size : Queue
empty_size = record (queue_at 0 0) { size = 0; slots = []; dequeue_waiting = true }

-- the consumer calls `dequeue` on the new queue, blocks, and the session is shut down
abbrev asleep : System
asleep = record {
  queue = record (fresh_queue 3 block) { dequeue_waiting = true };
  place = blocked 0;
}

abbrev down : System
down = record {
  queue = record (fresh_queue 3 block) { dequeue_waiting = true; session_up = false; cond = 1 };
  place = blocked 0;
}

down-Reach : Reach (initial 3 block) down
unfolding dequeue dequeue_enter dequeue_check dequeue_waits queue_shutdown_signal fresh_queue
down-Reach = next (next here (call (fresh_queue 3 block) null 0 0)) (shut asleep.queue (blocked 0))

Reach-in_range_example : IsValid down.queue × (down.place ≢ outside fault)
Reach-in_range_example = Reach-in_range 3 block down (omega arith) refl down-Reach

Reach-heard_example : 0 < down.queue.cond
Reach-heard_example = Reach-heard 3 block down 0 (omega arith) refl down-Reach refl (inl refl)

AbstractQueue-Bounded_example :
    (AbstractQueue 3 ≡ Bounded 3)
    × ((latency : ℕ) (clock : ℕ → ℕ) (a : AbstractQueue 3)
        → take_from latency clock a ≡ popped latency clock (view a).0)
AbstractQueue-Bounded_example = AbstractQueue-Bounded 3 (omega arith)
