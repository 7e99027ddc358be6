-- ===== src/Queue/Idle.antt =====
-- A queue that holds nothing: what `enqueue` of src/queue.c makes of it.
use dev_can_linux.Base.{◌≡◌, ap, ◌∙◌, true, false, [], ◌∷◌, ◌++◌, arith, drop, span_none}
use dev_can_linux.Queue.{CanMsg, Queue, enqueue, make_room, put_slot}
use dev_can_linux.Queue.Fifo.{contents}
use dev_can_linux.Queue.Invariant.{IsValid, enqueue-IsValid}
use dev_can_linux.Queue.Enqueue.{lost, WrapsOntoBegin, enqueue-append}

-- It is up, runs, and holds nothing.
pub record IsIdle (q : Queue) : Type 0 where
  pub valid : IsValid q
  pub up : q.session_up ≡ true
  pub runs : q.stopped ≡ false
  pub empty : q.begin ≡ q.end

pub IsIdle-room : {q : Queue} → IsIdle q → ¬ (WrapsOntoBegin q)
IsIdle-room {q} i (a, b) = absurd (omega (arith, i.valid.roomy, i.empty))

lost-IsIdle : {q : Queue} → IsIdle q → lost q ≡ 0
unfolding lost
lost-IsIdle {q} i = ground (arith, i.valid.roomy, i.empty)

pub contents-IsIdle : {q : Queue} → IsIdle q → contents q ≡ []
unfolding contents
contents-IsIdle {q} i = ground (arith, i.empty, span_none q.slots q.begin)

-- Afterwards it holds the message alone.
pub record HoldsOne (q : Queue) (m : CanMsg) : Type 0 where
  pub valid : IsValid q
  pub up : q.session_up ≡ true
  pub runs : q.stopped ≡ false
  pub holds : contents q ≡ m ∷ []

pub drop-lost : {q : Queue} → IsIdle q → drop (lost q) (contents q) ≡ []
drop-lost {q} i = ap (drop (lost q)) (contents-IsIdle i) ∙ ap (λ n. drop n []) (lost-IsIdle i)

enqueue-runs :
    (m : CanMsg) (q : Queue)
    → ((enqueue q m).queue.stopped ≡ q.stopped) × ((enqueue q m).queue.session_up ≡ q.session_up)
unfolding enqueue make_room put_slot
enqueue-runs m q = ground arith

pub enqueue-HoldsOne : (m : CanMsg) {q : Queue} → IsIdle q → HoldsOne (enqueue q m).queue m
enqueue-HoldsOne m {q} i =
    let (runs, up) = enqueue-runs m q in
    record {
      valid = enqueue-IsValid m i.valid;
      up = up ∙ i.up;
      runs = runs ∙ i.runs;
      holds =
          (enqueue-append m i.valid i.up (IsIdle-room i)).1
          ∙ ap (λ ms. ms ++ (m ∷ [])) (drop-lost i);
    }
