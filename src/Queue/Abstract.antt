-- ===== src/Queue/Abstract.antt =====
-- The queues of src/queue.c up to what they hold.
use mathlib.Core.HLevel.{Σ_prop_path}
use mathlib.Core.Quot
use mathlib.Core.Quot.{Quot, Quot-set}
use native.Mathlib.Bridge.{le_prop}
use native.Mathlib.Nat.{ℕ_set}
use std.Univalence.{iso_to_path}
use dev_can_linux.Base.{
  ℕ, suc, ◌-◌, ◌≤◌, ◌≡◌, refl, sym, ap, ◌∙◌, true, false, Option, some, List, [], ◌∷◌, ◌++◌, arith,
  length, length-append, length-replicate, replicate, span,
}
use dev_can_linux.Queue.{CanMsg, Queue, dequeue_noblock}
use dev_can_linux.Queue.Fifo.{contents, count, pop_fresh}
use dev_can_linux.Queue.Invariant.{IsValid, length-contents}
use dev_can_linux.Queue.Take.{reply, dequeue_noblock-Takes}

CanMsg-set : IsSet CanMsg
CanMsg-set = hlevel ℕ_set

Messages-set : IsSet (List CanMsg)
Messages-set = hlevel CanMsg-set

-- The valid queues of `n` slots that are up, and the relation that two of them hold the same messages.
abbrev pub QueueOf : (n : ℕ) → Type 0
QueueOf n = (q : Queue) × IsValid q × (q.size ≡ n) × (q.session_up ≡ true)

abbrev pub SameContents : (n : ℕ) → QueueOf n → QueueOf n → Type 0
SameContents n a b = contents a.0 ≡ contents b.0

abbrev pub AbstractQueue : (n : ℕ) → Type 0
AbstractQueue n = Quot (SameContents n)

-- The lists of at most `n` messages.
abbrev pub Bounded : (n : ℕ) → Type 0
Bounded n = (ms : List CanMsg) × (length ms ≤ n)

Bounded-set : (n : ℕ) → IsSet (Bounded n)
Bounded-set n = hlevel (Messages-set, le_prop)

contents-le : {n : ℕ} (a : QueueOf n) → length (contents a.0) ≤ n
unfolding count
contents-le (q, v, e, up) = ground (arith, length-contents v, v.end_in, v.begin_in)

held : {n : ℕ} → QueueOf n → Bounded n
held a = (contents a.0, contents-le a)

abbrev blank : CanMsg
blank = record {
  mid = 0;
  timestamp = 0;
  is_extended_mid = false;
  is_remote_frame = false;
  len = 0;
  dat = [];
}

-- A queue that holds these messages, from the first slot on.
abbrev holding : (n : ℕ) → List CanMsg → Queue
holding n ms = record {
  size = n;
  slots = ms ++ replicate (n - length ms) blank;
  begin = 0;
  end = length ms;
  cond = 0;
  session_up = true;
  dequeue_waiting = false;
  stopped = false;
  wake_pending = false;
  dropped_packet = false;
}

span_front : (ms rest : List CanMsg) → span (ms ++ rest) 0 (length ms) ≡ ms
unfolding span
span_front [] [] = refl
span_front [] (r ∷ rest) = refl
span_front (m ∷ ms) rest = ap (◌∷◌ m) (span_front ms rest)

contents-holding : (n : ℕ) (ms : List CanMsg) → contents (holding n ms) ≡ ms
unfolding contents
contents-holding n ms = ground (arith, span_front ms (replicate (n - length ms) blank))

holding-IsValid : (n : ℕ) (ms : List CanMsg) → 3 ≤ n → length ms ≤ n → IsValid (holding n ms)
holding-IsValid n ms h l = record {
  roomy = h;
  storage = omega (
    arith,
    length-append ms (replicate (n - length ms) blank),
    length-replicate (n - length ms) blank,
  );
  begin_in = omega arith;
  end_in = l;
}

Bounded-ext : {n : ℕ} (a b : Bounded n) → a.0 ≡ b.0 → a ≡ b
Bounded-ext a b h = Σ_prop_path (λ ms. le_prop) h

pub view : {n : ℕ} → AbstractQueue n → Bounded n
unfolding held
view {n} = Quot.lift (Bounded-set n) held (λ a b h. Bounded-ext (held a) (held b) h)

represent : {n : ℕ} → 3 ≤ n → Bounded n → AbstractQueue n
represent {n} h (ms, l) = Quot.mk (holding n ms, holding-IsValid n ms h l, refl, refl)

view-represent : {n : ℕ} (h : 3 ≤ n) (b : Bounded n) → view (represent h b) ≡ b
unfolding view represent held
view-represent {n} h (ms, l) = Bounded-ext _ (ms, l) (contents-holding n ms)

represent-view : {n : ℕ} (h : 3 ≤ n) (a : AbstractQueue n) → represent h (view a) ≡ a
unfolding view represent held
represent-view {n} h =
    Quot.ind {r = SameContents n} (λ a. Quot-set _ _)
      (λ a. Quot.sound (contents-holding n (contents a.0)))

abstract_path : (n : ℕ) → 3 ≤ n → AbstractQueue n ≡ Bounded n
abstract_path n h =
    iso_to_path
      (record { fun = view; inv = represent h; rinv = view-represent h; linv = represent-view h })

-- What `dequeue_noblock` returns, and what the queue holds afterwards.
abbrev pub Taken : Type 0
Taken = Option (Option CanMsg) × List CanMsg

Taken-set : IsSet Taken
Taken-set = hlevel (CanMsg-set, Messages-set)

taken : {n : ℕ} (latency : ℕ) (clock : ℕ → ℕ) → QueueOf n → Taken
taken {n} latency clock a =
    let (o, q) = dequeue_noblock (suc n) latency clock a.0 in (reply q o, contents q)

abbrev pub popped : (latency : ℕ) (clock : ℕ → ℕ) → List CanMsg → Taken
popped latency clock ms = (some (pop_fresh latency clock ms).0, (pop_fresh latency clock ms).1)

taken-popped :
    {n : ℕ} (latency : ℕ) (clock : ℕ → ℕ) (a : QueueOf n)
    → taken latency clock a ≡ popped latency clock (contents a.0)
unfolding taken
taken-popped {n} latency clock (q, v, e, up) =
    let few = contents-le {n = n} (q, v, e, up) in
    let t =
      dequeue_noblock-Takes (suc n) latency clock v up (omega (arith, length-contents v, few)) in
    λ i. (t.gives i, t.leaves i)

-- It is a function of what the queue holds.
pub take_from : {n : ℕ} (latency : ℕ) (clock : ℕ → ℕ) → AbstractQueue n → Taken
unfolding held
take_from {n} latency clock = Quot.lift Taken-set (taken latency clock) (λ a b h.
    taken-popped latency clock a ∙ ap (popped latency clock) h ∙ sym (taken-popped latency clock b))

take_from-popped :
    {n : ℕ} (latency : ℕ) (clock : ℕ → ℕ) (a : AbstractQueue n)
    → take_from latency clock a ≡ popped latency clock (view a).0
unfolding take_from view held
take_from-popped {n} latency clock =
    Quot.ind {r = SameContents n} (λ a. Taken-set _ _) (taken-popped latency clock)

-- The valid queues of three slots or more that are up, taken as equal where they hold the same
-- messages in the same order, are the lists of at most as many messages. On them `dequeue_noblock`,
-- with one round more than there are slots, is well defined, and takes from such a list its first message that is
-- not stale, with those before it.
pub AbstractQueue-Bounded :
    (n : ℕ)
    → 3 ≤ n
    → (AbstractQueue n ≡ Bounded n)
      × ((latency : ℕ) (clock : ℕ → ℕ) (a : AbstractQueue n)
          → take_from latency clock a ≡ popped latency clock (view a).0)
AbstractQueue-Bounded n h = (abstract_path n h, take_from-popped)
