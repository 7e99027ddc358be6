-- ===== src/Queue.antt =====
-- src/queue.c and src/include/queue.h: the bounded circular queue of CAN messages that stands
-- between the driver and each client (`rx_queue`), and between the clients and the driver
-- (`tx_queue`). An operation that holds the mutex throughout is one function on the state; the
-- blocking operations are cut at `pthread_cond_wait`, where the mutex is given up.
pub mod Fifo
pub mod Invariant
pub mod Enqueue
pub mod Room
pub mod Take
pub mod Wait
pub mod Ready
pub mod Idle
pub mod Abstract
pub mod System
mod Tests
use dev_can_linux.Base.{
  ℕ, zero, suc, ◌+◌, ◌/◌, ◌^◌, Bool, true, false, not, ◌&&◌, ◌||◌, Option, none, some, List, [],
  length, get_elem?, set, ltb, leb, ◌==◌, if◌then◌else◌, Status, eok, efault, epipe, edom, enomem,
}
use dev_can_linux.Base.Word.{u32, sub32}

-- `struct can_msg` of QNX, as the source uses it.
pub record CanMsg : Type 0 where
  pub mid : ℕ
  pub timestamp : ℕ
  pub is_extended_mid : Bool
  pub is_remote_frame : Bool
  pub len : ℕ
  pub dat : List ℕ

-- `queue_t`. The flags are ints that hold 0 or 1; `cond` counts the calls of
-- `pthread_cond_signal` on the queue's condition variable; `dropped_packet` says whether a
-- handler is installed.
pub record Queue : Type 0 where
  pub size : ℕ
  pub slots : List CanMsg
  pub begin : ℕ
  pub end : ℕ
  pub cond : ℕ
  pub session_up : Bool
  pub dequeue_waiting : Bool
  pub stopped : Bool
  pub wake_pending : Bool
  pub dropped_packet : Bool

abbrev pub signal : Queue → Queue
signal q = record q { cond = q.cond + 1 }

-- What `create_queue` writes to the queue before and after its calls of the system.
unfoldable pub fresh_queue : ℕ → List CanMsg → Queue
fresh_queue size block = record {
  size = size;
  slots = block;
  begin = 0;
  end = 0;
  cond = 0;
  session_up = true;
  dequeue_waiting = false;
  stopped = false;
  wake_pending = false;
  dropped_packet = false;
}

-- The queue is `none` where the pointer is NULL or the call fails. `mutex_rc` and `cond_rc` are
-- what the two `pthread_..._init` calls return, and `block` what `malloc` does.
pub create_queue :
    Bool → Option ℕ → (mutex_rc cond_rc : Status) → Option (List CanMsg) → Status × Option Queue
create_queue false attr mutex_rc cond_rc block = (efault, none)
create_queue true none mutex_rc cond_rc block = (efault, none)
create_queue true (some size) eok eok (some block) =
    (eok, some (fresh_queue size (if size == 0 then [] else block)))
create_queue true (some size) eok eok none =
    if size == 0 then (eok, some (fresh_queue size [])) else (enomem, none)
create_queue true (some size) eok cond_rc block = (cond_rc, none)
create_queue true (some size) mutex_rc cond_rc block = (mutex_rc, none)

-- `queue_shutdown_signal`, `queue_stop_signal`, `queue_start_signal` and the variants that do
-- not signal.
unfoldable pub queue_shutdown_signal : Queue → Queue
queue_shutdown_signal q = signal (record q { session_up = false })

unfoldable pub queue_is_stopped : Queue → Bool
queue_is_stopped q = q.stopped

unfoldable pub queue_stop_signal : Queue → Queue
queue_stop_signal q = signal (record q { stopped = true })

unfoldable pub queue_stop : Queue → Queue
queue_stop q = record q { stopped = true }

unfoldable pub queue_start_signal : Queue → Queue
queue_start_signal q = signal (record q { stopped = false })

unfoldable pub queue_start : Queue → Queue
queue_start q = record q { stopped = false }

unfoldable pub queue_wake_pending : Queue → Bool
queue_wake_pending q = q.wake_pending

unfoldable pub queue_wake_up : Queue → Queue
queue_wake_up q = record q { wake_pending = true }

unfoldable pub queue_awake : Queue → Queue
queue_awake q = record q { wake_pending = false }

-- The branches of `enqueue` that move `end` round the array and `begin` out of its way, with
-- whether the handler of dropped packets is called.
pub make_room : Queue → Queue × Bool
make_room q =
    if q.end == q.size
    then (if q.begin == 0
        then (record q { end = 0; begin = 2 }, false)
        else (record q { end = 0 }, false))
    else if q.begin == q.end + 1
    then (if q.begin + 1 == q.size
        then (record q { begin = 0 }, false)
        else (record q { begin = q.begin + 1 }, q.dropped_packet))
    else (q, false)

-- `Q->data[Q->end] = *msg; ++Q->end;` and the signal.
pub put_slot : CanMsg → Queue → Queue
put_slot m q = signal (record q { slots = set q.slots q.end m; end = q.end + 1 })

-- What a call of `enqueue` leaves: its status, the queue, and whether it called the handler.
pub record Enqueued : Type 0 where
  pub status : Status
  pub queue : Queue
  pub reported : Bool

-- `enqueue` on a queue and a message that are there.
pub enqueue : Queue → CanMsg → Enqueued
enqueue q m =
    if not q.session_up
    then record { status = epipe; queue = q; reported = false }
    else if q.size == 0
    then record {
      status = edom;
      queue = signal (record q { dequeue_waiting = false });
      reported = false;
    }
    else (let (r, dropped) = make_room q in
        record { status = eok; queue = put_slot m r; reported = dropped })

-- `uint32_t now = get_clock_time_us()/1000`.
abbrev pub now_ms : ℕ → ℕ
now_ms clock_us = u32 (clock_us / 1000)

-- `latency_limit_ms` is set and the message is older than it allows.
unfoldable pub is_stale : (latency_limit_ms clock_us : ℕ) → CanMsg → Bool
is_stale latency clock m = not (latency == 0) && ltb latency (sub32 (now_ms clock) m.timestamp)

-- `++Q->begin` and the two wraps that follow it.
pub advance : Queue → Queue
advance q =
    if q.begin + 1 == q.size
    then (if q.end == q.size then record q { begin = 0; end = 0 } else record q { begin = 0 })
    else record q { begin = q.begin + 1 }

-- The message that `&Q->data[i]` points to: a read out of range is a fault.
abbrev pub message_at : Queue → ℕ → Option CanMsg
message_at q i = get_elem? q.slots i

-- What one round of a dequeue does. `slot i` returns `&Q->data[i]`, `retry` goes round the
-- `do … while (result == NULL)` loop, and `wait` stops in `pthread_cond_wait`.
pub data Outcome : Type 0 where
  slot : ℕ → Outcome
  null retry wait fault : Outcome

-- "handle data in queue here": take the message at `begin`, unless it is stale.
pub take_front : (latency_limit_ms clock_us : ℕ) → Queue → Outcome × Queue
take_front latency clock q = elim (message_at q q.begin) [
  | none ↦ (fault, q)
  | some m ↦ (if is_stale latency clock m then retry else slot q.begin, advance q)
]

-- One round of `dequeue_noblock` under the mutex.
pub noblock_round : (latency_limit_ms clock_us : ℕ) → Queue → Outcome × Queue
noblock_round latency clock q =
    if (q.size == 0) || (q.begin == q.end) then (null, q) else take_front latency clock q

-- `dequeue_noblock` in at most `fuel` rounds, the i-th of which reads the clock at `clock i`.
-- `retry` is what is left when the fuel runs out.
pub noblock_loop : (fuel latency_limit_ms : ℕ) (clock : ℕ → ℕ) → Queue → Outcome × Queue
noblock_loop zero latency clock q = (retry, q)
noblock_loop (suc fuel) latency clock q =
    let (out, r) = noblock_round latency (clock 0) q in
    elim out [
      | retry ↦ noblock_loop fuel latency (λ i. clock (suc i)) r
      | slot i ↦ (slot i, r)
      | null ↦ (null, r)
      | wait ↦ (wait, r)
      | fault ↦ (fault, r)
    ]

pub dequeue_noblock : (fuel latency_limit_ms : ℕ) (clock : ℕ → ℕ) → Queue → Outcome × Queue
dequeue_noblock fuel latency clock q =
    if not q.session_up then (null, q) else noblock_loop fuel latency clock q

unfoldable pub dequeue_peek_noblock : Queue → Outcome
dequeue_peek_noblock q =
    if not q.session_up || ((q.size == 0) || (q.begin == q.end)) then null else slot q.begin

-- The condition of the `while` round `pthread_cond_wait` in `dequeue`.
unfoldable pub dequeue_waits : Queue → Bool
dequeue_waits q = q.dequeue_waiting && q.session_up && ((q.begin == q.end) || q.stopped)

-- `dequeue` from the test of that `while` on, as it runs at first and after every wake-up.
pub dequeue_check : (latency_limit_ms clock_us : ℕ) → Queue → Outcome × Queue
dequeue_check latency clock q =
    if dequeue_waits q
    then (wait, q)
    else (let r = record q { dequeue_waiting = false } in
        if not q.session_up
        then (null, signal r)
        else if q.size == 0
        then (null, r)
        else take_front latency clock r)

-- A round of `dequeue` up to its first wait.
pub dequeue_enter : (latency_limit_ms clock_us : ℕ) → Queue → Outcome × Queue
dequeue_enter latency clock q = dequeue_check latency clock (record q { dequeue_waiting = true })

-- `dequeue` as it is called: `session_up` is first read outside the mutex.
pub dequeue : (latency_limit_ms clock_us : ℕ) → Queue → Outcome × Queue
dequeue latency clock q = if not q.session_up then (null, q) else dequeue_enter latency clock q

-- The same for `dequeue_peek`, which takes nothing and does not heed `stopped`.
unfoldable pub peek_waits : Queue → Bool
peek_waits q = q.dequeue_waiting && q.session_up && (q.begin == q.end)

pub peek_check : Queue → Outcome × Queue
peek_check q =
    if peek_waits q
    then (wait, q)
    else (let r = record q { dequeue_waiting = false } in
        if not q.session_up
        then (null, signal r)
        else if q.size == 0
        then (null, r)
        else (slot q.begin, r))

pub dequeue_peek : Queue → Outcome × Queue
dequeue_peek q =
    if not q.session_up then (null, q) else peek_check (record q { dequeue_waiting = true })

-- `destroy_queue` up to its wait for the consumer, and what it does when `dequeue_waiting` is
-- clear (`none` where it goes on waiting).
pub destroy_begin : Queue → Queue
destroy_begin q = queue_shutdown_signal q

pub destroy_finish : Queue → Option Queue
destroy_finish q =
    if q.dequeue_waiting then none else some (record q { size = 0; slots = []; begin = 0; end = 0 })
