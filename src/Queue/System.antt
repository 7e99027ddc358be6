-- ===== src/Queue/System.antt =====
-- One thread in `dequeue`, among the calls that other threads make on the same queue: `netif_tx`
-- on the transmit queue of a device against its clients and its driver.
use dev_can_linux.Base.{
  ℕ, ◌≤◌, ◌<◌, ◌≡◌, refl, true, false, ◌==◌, List, arith, length, ◌⊎◌, Bool-cases, inl, inr, ◌≢◌,
  ◌∙◌,
}
use dev_can_linux.Queue.{
  CanMsg, Queue, Outcome, slot, null, retry, wait, fault, enqueue, make_room, put_slot, advance,
  is_stale, fresh_queue, take_front, queue_shutdown_signal, queue_start_signal, queue_stop_signal,
  queue_stop, queue_start, dequeue_waits, dequeue_check, dequeue_enter, dequeue,
}
use dev_can_linux.Queue.Wait.{enqueue-Wakes, shutdown-Wakes, start-Wakes}
use dev_can_linux.Queue.Invariant.{
  advance-IsValid, IsValid, fresh_queue-IsValid, enqueue-IsValid, take_front_lem, message_at-begin,
}

-- Where the consuming thread stands: outside of `dequeue` with what its last call returned,
-- blocked in `pthread_cond_wait` since the condition variable had been signalled `n` times, or
-- between two rounds.
pub data Place : Type 0 where
  outside : Outcome → Place
  blocked : ℕ → Place
  between : Place

pub record System : Type 0 where
  pub queue : Queue
  pub place : Place

-- The place that a round of `dequeue` leaves the consumer in.
abbrev pub place_of : Outcome × Queue → Place
place_of (wait, q) = blocked q.cond
place_of (retry, q) = between
place_of (slot i, q) = outside (slot i)
place_of (null, q) = outside null
place_of (fault, q) = outside fault

abbrev pub after : Outcome × Queue → System
after (out, q) = record { queue = q; place = place_of (out, q) }

-- The consumer calls, wakes (also with no signal, as POSIX allows) and goes round; it starts the
-- queue by `queue_start` only outside of `dequeue`, as `netif_tx` does. The other threads enqueue,
-- start, stop and shut down at any time.
pub data Step : System → System → Type 0 where
  call :
      (q : Queue) (o : Outcome) (latency clock : ℕ)
      → Step (record { queue = q; place = outside o }) (after (dequeue latency clock q))
  wake :
      (q : Queue) (n latency clock : ℕ)
      → Step (record { queue = q; place = blocked n }) (after (dequeue_check latency clock q))
  round :
      (q : Queue) (latency clock : ℕ)
      → Step (record { queue = q; place = between }) (after (dequeue_enter latency clock q))
  start_own :
      (q : Queue) (o : Outcome)
      → Step
          (record { queue = q; place = outside o })
          (record { queue = queue_start q; place = outside o })
  put :
      (q : Queue) (p : Place) (m : CanMsg)
      → Step (record { queue = q; place = p }) (record { queue = (enqueue q m).queue; place = p })
  shut :
      (q : Queue) (p : Place)
      → Step
          (record { queue = q; place = p })
          (record { queue = queue_shutdown_signal q; place = p })
  start :
      (q : Queue) (p : Place)
      → Step (record { queue = q; place = p }) (record { queue = queue_start_signal q; place = p })
  stop_signal :
      (q : Queue) (p : Place)
      → Step (record { queue = q; place = p }) (record { queue = queue_stop_signal q; place = p })
  stop :
      (q : Queue) (p : Place)
      → Step (record { queue = q; place = p }) (record { queue = queue_stop q; place = p })

pub data Reach (s : System) : System → Type 0 where
  here : Reach s s
  next : {t u : System} → Reach s t → Step t u → Reach s u

-- A consumer that is blocked has said so, and if it could go on it has been signalled since.
abbrev pub IsHeard : Queue → Place → Type 0
IsHeard q (outside o) = (q.dequeue_waiting ≡ false) × (o ≢ fault)
IsHeard q (blocked n) =
    (q.dequeue_waiting ≡ true) × (n ≤ q.cond) × (dequeue_waits q ≡ false → n < q.cond)
IsHeard q between = q.dequeue_waiting ≡ false

pub record IsSound (s : System) : Type 0 where
  pub valid : IsValid s.queue
  pub heard : IsHeard s.queue s.place

-- A step of another thread keeps what a blocked consumer is owed.
record Keeps (q r : Queue) : Type 0 where
  same : r.dequeue_waiting ≡ q.dequeue_waiting
  grows : q.cond ≤ r.cond
  wakes : dequeue_waits q ≡ true → dequeue_waits r ≡ false → q.cond < r.cond

Keeps-IsHeard : (q r : Queue) (p : Place) → Keeps q r → IsHeard q p → IsHeard r p
Keeps-IsHeard q r (outside o) k (h, f) = (rw k.same h, f)
Keeps-IsHeard q r between k h = rw k.same h
Keeps-IsHeard q r (blocked n) k (h, le, lt) = (rw k.same h, omega (arith, k.grows), told)
  where
    told : dequeue_waits r ≡ false → n < r.cond
    told goes = elim (Bool-cases (dequeue_waits q)) [
      | inl waits ↦ omega (arith, k.wakes waits goes)
      | inr went ↦ omega (arith, lt went, k.grows)
    ]

enqueue-Keeps : (q : Queue) (m : CanMsg) → IsValid q → Keeps q (enqueue q m).queue
unfolding enqueue make_room put_slot
enqueue-Keeps q m v = record {
  same = ground arith;
  grows = ground arith;
  wakes = enqueue-Wakes q m;
}

shutdown-Keeps : (q : Queue) → Keeps q (queue_shutdown_signal q)
unfolding queue_shutdown_signal
shutdown-Keeps q = record { same = refl; grows = omega arith; wakes = shutdown-Wakes q }

start-Keeps : (q : Queue) → Keeps q (queue_start_signal q)
unfolding queue_start_signal
start-Keeps q = record { same = refl; grows = omega arith; wakes = start-Wakes q }

stop_signal-Keeps : (q : Queue) → Keeps q (queue_stop_signal q)
unfolding queue_stop_signal
stop_signal-Keeps q = record { same = refl; grows = omega arith; wakes = λ w g. omega arith }

stop-Keeps : (q : Queue) → Keeps q (queue_stop q)
unfolding queue_stop dequeue_waits
stop-Keeps q = record { same = refl; grows = omega arith; wakes = ground arith }

waiting-advance : (q : Queue) → (advance q).dequeue_waiting ≡ q.dequeue_waiting
unfolding advance
waiting-advance q = ground arith

take_front-IsSound :
    (latency clock : ℕ) (q : Queue)
    → IsValid q
    → q.dequeue_waiting ≡ false
    → IsSound (after (take_front latency clock q))
take_front-IsSound latency clock q v w =
    let (m, at) = message_at-begin v in
    let idle = waiting-advance q ∙ w in
    rw (take_front_lem latency clock q m at) (elim (Bool-cases (is_stale latency clock m)) [
      | inl stale ↦ rw stale (record { valid = advance-IsValid v; heard = idle })
      | inr fresh ↦ rw fresh (record { valid = advance-IsValid v; heard = (idle, λ e. cc) })
    ])

waits-waiting : (q : Queue) → dequeue_waits q ≡ true → q.dequeue_waiting ≡ true
unfolding dequeue_waits
waits-waiting q e = ground arith

-- A round of `dequeue` on a valid queue leaves the consumer in order.
dequeue_check-IsSound :
    (latency clock : ℕ) (q : Queue) → IsValid q → IsSound (after (dequeue_check latency clock q))
unfolding dequeue_check
dequeue_check-IsSound latency clock q v = elim (Bool-cases (dequeue_waits q)) [
  | inl waits ↦
      rw waits (record { valid = v; heard = (waits-waiting q waits, omega arith, λ goes. cc) })
  | inr goes ↦ elim (Bool-cases q.session_up) [
    | inr down ↦ simp (goes, down) (record { valid = omega arith; heard = (refl, λ e. cc) })
    | inl up ↦
        let pos : (q.size == 0) ≡ false = ground arith in
        simp (goes, up, pos)
          (take_front-IsSound latency clock
            (record q { session_up = true; dequeue_waiting = false }) (omega arith) refl)
  ]
]

dequeue-IsSound :
    (latency clock : ℕ) (q : Queue) (o : Outcome)
    → IsSound (record { queue = q; place = outside o })
    → IsSound (after (dequeue latency clock q))
unfolding dequeue dequeue_enter
dequeue-IsSound latency clock q o s = elim (Bool-cases q.session_up) [
  | inr down ↦ simp down (record { valid = omega (arith, s.valid); heard = (s.heard.0, λ e. cc) })
  | inl up ↦ simp up (
      dequeue_check-IsSound latency clock (record q { session_up = true; dequeue_waiting = true })
        (omega (arith, s.valid)))
]

Keeps-IsSound :
    (q r : Queue) (p : Place)
    → IsSound (record { queue = q; place = p })
    → IsValid r
    → Keeps q r
    → IsSound (record { queue = r; place = p })
Keeps-IsSound q r p s v k = record { valid = v; heard = Keeps-IsHeard q r p k s.heard }

-- Every step keeps the queue valid and the consumer heard.
pub Step-IsSound : {s t : System} → Step s t → IsSound s → IsSound t
unfolding dequeue_enter queue_start queue_shutdown_signal queue_start_signal queue_stop_signal
    queue_stop
Step-IsSound (call q o latency clock) s = dequeue-IsSound latency clock q o s
Step-IsSound (wake q n latency clock) s = dequeue_check-IsSound latency clock q s.valid
Step-IsSound (round q latency clock) s =
    dequeue_check-IsSound latency clock (record q { dequeue_waiting = true })
      (omega (arith, s.valid))
Step-IsSound (start_own q o) s = record { valid = omega (arith, s.valid); heard = s.heard }
Step-IsSound (put q p m) s =
    Keeps-IsSound q _ p s (enqueue-IsValid m s.valid) (enqueue-Keeps q m s.valid)
Step-IsSound (shut q p) s = Keeps-IsSound q _ p s (omega (arith, s.valid)) (shutdown-Keeps q)
Step-IsSound (start q p) s = Keeps-IsSound q _ p s (omega (arith, s.valid)) (start-Keeps q)
Step-IsSound (stop_signal q p) s =
    Keeps-IsSound q _ p s (omega (arith, s.valid)) (stop_signal-Keeps q)
Step-IsSound (stop q p) s = Keeps-IsSound q _ p s (omega (arith, s.valid)) (stop-Keeps q)

Reach-IsSound : {s t : System} → IsSound s → Reach s t → IsSound t
Reach-IsSound h here = h
Reach-IsSound h (next r st) = Step-IsSound st (Reach-IsSound h r)

-- A queue just created by `create_queue`, its consumer not yet in `dequeue`.
abbrev pub initial : ℕ → List CanMsg → System
initial size block = record { queue = fresh_queue size block; place = outside null }

initial-IsSound :
    (size : ℕ) (block : List CanMsg) → 3 ≤ size → length block ≡ size → IsSound (initial size block)
unfolding fresh_queue
initial-IsSound size block h e = record {
  valid = fresh_queue-IsValid size block h e;
  heard = (refl, λ f. cc);
}

IsHeard-ne-fault : (q : Queue) (p : Place) → IsHeard q p → p ≢ outside fault
IsHeard-ne-fault q (outside o) (h, f) e = f (cc)
IsHeard-ne-fault q (blocked n) h e = cc
IsHeard-ne-fault q between h e = cc

-- The consumer has nothing to wait for.
abbrev pub MayGo : Queue → Type 0
MayGo q = (q.session_up ≡ false) ⊎ ((q.begin ≢ q.end) × (q.stopped ≡ false))

MayGo-waits : (q : Queue) → MayGo q → dequeue_waits q ≡ false
unfolding dequeue_waits
MayGo-waits q m = ground arith

IsHeard-told : (q : Queue) (p : Place) (n : ℕ) → IsHeard q p → p ≡ blocked n → MayGo q → n < q.cond
IsHeard-told q (outside o) n h e m = cc
IsHeard-told q between n h e m = cc
IsHeard-told q (blocked k) n (w, le, told) e m = ground (arith, told (MayGo-waits q m))

-- Whatever the threads do from the creation of a queue of three slots or more, its indices stay
-- in range, and the consumer never reads outside the array.
pub Reach-in_range :
    (size : ℕ) (block : List CanMsg) (t : System)
    → 3 ≤ size
    → length block ≡ size
    → Reach (initial size block) t
    → IsValid t.queue × (t.place ≢ outside fault)
Reach-in_range size block t h e r =
    let s = Reach-IsSound (initial-IsSound size block h e) r in
    (s.valid, IsHeard-ne-fault t.queue t.place s.heard)

-- No wake-up is lost: whatever the threads do, a consumer that is blocked though the session is
-- down, or though there is a message and the queue is not stopped, has been signalled since it
-- went to wait.
pub Reach-heard :
    (size : ℕ) (block : List CanMsg) (t : System) (n : ℕ)
    → 3 ≤ size
    → length block ≡ size
    → Reach (initial size block) t
    → t.place ≡ blocked n
    → MayGo t.queue
    → n < t.queue.cond
Reach-heard size block t n h e r at may =
    let s = Reach-IsSound (initial-IsSound size block h e) r in
    IsHeard-told t.queue t.place n s.heard at may
