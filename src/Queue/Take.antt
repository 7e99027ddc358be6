-- ===== src/Queue/Take.antt =====
-- Taking from a queue: the dequeue functions give the oldest message that is not stale.
use dev_can_linux.Base.{
  ℕ, zero, suc, ◌+◌, ◌-◌, ◌≤◌, ◌<◌, ◌≡◌, ap, ◌≢◌, inl, inr, true, false, ◌∷◌, List, [], Option,
  none, some, arith, length, span_none, span_cons, ◌==◌, if◌then◌else◌, Bool-cases, set,
  get_elem?-set_ne, get_elem?-set_self, get_elem?-none, length-set,
}
use dev_can_linux.Queue.{
  CanMsg, Queue, advance, take_front, Outcome, slot, null, retry, wait, fault, message_at, is_stale,
  noblock_round, noblock_loop, dequeue_noblock, dequeue_peek_noblock, enqueue, make_room, put_slot,
}
use dev_can_linux.Queue.Fifo.{contents, count, pop_fresh}
use dev_can_linux.Queue.Invariant.{
  IsValid, advance-IsValid, advance-count, message_at-begin, take_front_lem,
}

-- What the caller of a dequeue gets: NULL, or the message that the pointer leads to. A fault and
-- a call that has not returned give no reply.
unfoldable pub reply : Queue → Outcome → Option (Option CanMsg)
reply q null = some none
reply q (slot i) = elim (message_at q i) [ none ↦ none | some m ↦ some (some m) ]
reply q retry = none
reply q wait = none
reply q fault = none

pub contents-advance :
    {q : Queue} (m : CanMsg)
    → IsValid q
    → q.begin ≢ q.end
    → message_at q q.begin ≡ some m
    → contents q ≡ m ∷ contents (advance q)
unfolding contents advance
contents-advance {q} m v ne e = ground (
  arith,
  span_cons slots begin (end - begin - 1) m e,
  span_cons slots begin (size - begin - 1) m e,
  span_none slots (begin + 1),
  span_none slots 0,
)
  where
    open q use {slots, begin, end, size}

pub contents-empty : {q : Queue} → IsValid q → q.begin ≡ q.end → contents q ≡ []
unfolding contents
contents-empty {q} v e = ground (arith, span_none q.slots q.begin)

slots-advance : (q : Queue) → (advance q).slots ≡ q.slots
unfolding advance
slots-advance q = ground arith

reply-slot :
    (q : Queue) (i : ℕ) (m : CanMsg) → message_at q i ≡ some m → reply q (slot i) ≡ some (some m)
unfolding reply
reply-slot q i m e = rw (e, reply)

-- What is owed by a run of the loop on `q` that ends in `out`.
pub record Takes (latency : ℕ) (clock : ℕ → ℕ) (q : Queue) (out : Outcome × Queue) : Type 0 where
  pub valid : IsValid out.1
  pub gives : reply out.1 out.0 ≡ some (pop_fresh latency clock (contents q)).0
  pub leaves : contents out.1 ≡ (pop_fresh latency clock (contents q)).1

pub noblock_round-empty :
    (latency clock : ℕ) (q : Queue) → q.begin ≡ q.end → noblock_round latency clock q ≡ (null, q)
unfolding noblock_round
noblock_round-empty latency clock q e = ground arith

pub noblock_round-some :
    (latency clock : ℕ) (q : Queue) (m : CanMsg)
    → q.begin ≢ q.end
    → (q.size == 0) ≡ false
    → message_at q q.begin ≡ some m
    → noblock_round latency clock q
      ≡ (if is_stale latency clock m then retry else slot q.begin, advance q)
unfolding noblock_round
noblock_round-some latency clock q m ne pos e = ground (arith, take_front_lem latency clock q m e)

module _ (fuel latency : ℕ) (clock : ℕ → ℕ) (q r : Queue) where
  pub loop-null :
      noblock_round latency (clock 0) q ≡ (null, r)
      → noblock_loop (suc fuel) latency clock q ≡ (null, r)
  unfolding noblock_loop
  loop-null e = ground arith

  pub loop-slot :
      (i : ℕ)
      → noblock_round latency (clock 0) q ≡ (slot i, r)
      → noblock_loop (suc fuel) latency clock q ≡ (slot i, r)
  unfolding noblock_loop
  loop-slot i e = ground arith

  loop-retry :
      noblock_round latency (clock 0) q ≡ (retry, r)
      → noblock_loop (suc fuel) latency clock q ≡ noblock_loop fuel latency (λ i. clock (suc i)) r
  unfolding noblock_loop
  loop-retry e = rw (e, noblock_loop) (rw e)

module _ (latency : ℕ) (clock : ℕ → ℕ) {q : Queue} (v : IsValid q) where
  Takes-empty : q.begin ≡ q.end → Takes latency clock q (null, q)
  unfolding reply pop_fresh
  Takes-empty e = record {
    valid = v;
    gives = rw (contents-empty v e);
    leaves = rw (contents-empty v e);
  }

  module _ (m : CanMsg) (ne : q.begin ≢ q.end) (at : message_at q q.begin ≡ some m) where
    Takes-fresh :
        is_stale latency (clock 0) m ≡ false → Takes latency clock q (slot q.begin, advance q)
    unfolding pop_fresh
    Takes-fresh fresh = record {
      valid = advance-IsValid v;
      gives =
          rw (contents-advance m v ne at, pop_fresh, fresh)
            (reply-slot (advance q) q.begin m (rw slots-advance at));
      leaves = rw (contents-advance m v ne at, pop_fresh, fresh);
    }

    Takes-stale :
        {out : Outcome × Queue}
        → is_stale latency (clock 0) m ≡ true
        → Takes latency (λ i. clock (suc i)) (advance q) out
        → Takes latency clock q out
    unfolding pop_fresh
    Takes-stale stale t = record {
      valid = t.valid;
      gives = rw (contents-advance m v ne at, pop_fresh, stale) t.gives;
      leaves = rw (contents-advance m v ne at, pop_fresh, stale) t.leaves;
    }

noblock_loop-Takes :
    (fuel latency : ℕ) (clock : ℕ → ℕ) {q : Queue}
    → IsValid q
    → count q < fuel
    → Takes latency clock q (noblock_loop fuel latency clock q)
unfolding noblock_loop
noblock_loop-Takes zero latency clock v h = elim h [ ]
noblock_loop-Takes (suc fuel) latency clock {q} v h = elim (Bool-cases (q.begin == q.end)) [
  | inl same ↦
      let e : q.begin ≡ q.end = ground arith in
      rw (loop-null fuel latency clock q q (noblock_round-empty latency (clock 0) q e))
        (Takes-empty latency clock v e)
  | inr differ ↦
      let ne : q.begin ≢ q.end = ground arith in
      let (m, at) = message_at-begin v in
      let round = noblock_round-some latency (clock 0) q m ne (ground arith) at in
      elim (Bool-cases (is_stale latency (clock 0) m)) [
        | inl stale ↦ rw (loop-retry fuel latency clock q (advance q) (rw stale at round)) (
            Takes-stale latency clock v m ne at stale (
              noblock_loop-Takes fuel latency (λ i. clock (suc i)) (advance-IsValid v)
                (omega (arith, advance-count v ne))))
        | inr fresh ↦
            rw (loop-slot fuel latency clock q (advance q) q.begin (rw fresh at round))
              (Takes-fresh latency clock v m ne at fresh)
      ]
]

-- On a valid queue that is up, with more rounds than there are messages, `dequeue_noblock` returns:
-- it gives the oldest message that is not stale (NULL if there is none), drops the stale ones
-- before it, leaves the others in order, and keeps the invariant.
pub dequeue_noblock-Takes :
    (fuel latency : ℕ) (clock : ℕ → ℕ) {q : Queue}
    → IsValid q
    → q.session_up ≡ true
    → count q < fuel
    → Takes latency clock q (dequeue_noblock fuel latency clock q)
unfolding dequeue_noblock
dequeue_noblock-Takes fuel latency clock v up h =
    simp up (noblock_loop-Takes fuel latency clock v h)

-- `dequeue_peek_noblock` shows the message that `dequeue_noblock` would take without a limit.
pub peek_noblock-head :
    {q : Queue} (m : CanMsg) (rest : List CanMsg)
    → IsValid q
    → q.session_up ≡ true
    → contents q ≡ m ∷ rest
    → reply q (dequeue_peek_noblock q) ≡ some (some m)
unfolding dequeue_peek_noblock
peek_noblock-head {q} m rest v up e =
    let (n, at) = message_at-begin v in
    ground (arith, contents-empty v, contents-advance n v, reply-slot q q.begin n at)

-- `enqueue` writes one slot.
enqueue-slots :
    (m : CanMsg) (q : Queue)
    → q.session_up ≡ true
    → q.size ≢ 0
    → (enqueue q m).queue.slots ≡ set q.slots (if q.end == q.size then 0 else q.end) m
unfolding enqueue make_room put_slot
enqueue-slots m q up pos = ground arith

enqueue-advance-slots :
    (m : CanMsg) {q : Queue}
    → IsValid q
    → q.session_up ≡ true
    → (enqueue (advance q) m).queue.slots
      ≡ set q.slots (if (advance q).end == q.size then 0 else (advance q).end) m
unfolding advance
enqueue-advance-slots m {q} v up = ground (arith, enqueue-slots m (advance q))

module _ {q : Queue} (m : CanMsg) (v : IsValid q) (up : q.session_up ≡ true)
    (ne : q.begin ≢ q.end) where
  -- The message behind the pointer that a dequeue has returned outlives the next `enqueue`, unless
  -- it stood in the first slot of an array filled to its end.
  pub dequeued_survives :
      ¬ ((q.end ≡ q.size) × (q.begin ≡ 0))
      → message_at (enqueue (advance q) m).queue q.begin ≡ message_at q q.begin
  unfolding advance
  dequeued_survives away =
      rw (enqueue-advance-slots m v up) (get_elem?-set_ne q.slots m (ground arith))

  -- There the `enqueue` writes its own message through the pointer.
  pub dequeued_overwritten :
      q.end ≡ q.size → q.begin ≡ 0 → message_at (enqueue (advance q) m).queue q.begin ≡ some m
  unfolding advance
  dequeued_overwritten full first =
      ground (arith, enqueue-advance-slots m v up, get_elem?-set_self q.slots 0 m)

loop-fault :
    (fuel latency : ℕ) (clock : ℕ → ℕ) (q : Queue)
    → noblock_round latency (clock 0) q ≡ (fault, q)
    → noblock_loop (suc fuel) latency clock q ≡ (fault, q)
unfolding noblock_loop
loop-fault fuel latency clock q e = ground arith

-- A dequeue at an index outside the array is a fault.
out_of_range-fault :
    (fuel latency : ℕ) (clock : ℕ → ℕ) (q : Queue)
    → q.session_up ≡ true
    → 0 < q.size
    → q.begin ≢ q.end
    → length q.slots ≤ q.begin
    → dequeue_noblock (suc fuel) latency clock q ≡ (fault, q)
unfolding dequeue_noblock noblock_round take_front
out_of_range-fault fuel latency clock q up pos ne out =
    let at = get_elem?-none q.slots q.begin out in
    simp up (loop-fault fuel latency clock _ (ground arith))

small-enqueue :
    (m : CanMsg) (q : Queue)
    → 0 < q.size
    → q.session_up ≡ true
    → q.begin ≡ 0
    → q.end ≡ q.size
    → let r = (enqueue q m).queue in
      (r.session_up ≡ true)
      × (r.size ≡ q.size)
      × (r.begin ≡ 2)
      × (r.end ≡ 1)
      × (r.slots ≡ set q.slots 0 m)
unfolding enqueue make_room put_slot
small-enqueue m q pos up first last = ground arith

-- A queue of one or two slots filled from the first: the next `enqueue` moves `begin` past the
-- array, and the dequeue that follows reads outside it.
pub small_queue-fault :
    (fuel latency : ℕ) (clock : ℕ → ℕ) (m : CanMsg) (q : Queue)
    → 0 < q.size
    → q.size ≤ 2
    → length q.slots ≡ q.size
    → q.session_up ≡ true
    → q.begin ≡ 0
    → q.end ≡ q.size
    → (dequeue_noblock (suc fuel) latency clock (enqueue q m).queue).0 ≡ fault
small_queue-fault fuel latency clock m q pos small full up first last =
    let (u, s, b, e, w) = small-enqueue m q pos up first last in
    ap (λ t. t.0)
      (out_of_range-fault fuel latency clock (enqueue q m).queue u (omega arith) (omega arith)
        (rw w (omega (arith, length-set q.slots 0 m))))
