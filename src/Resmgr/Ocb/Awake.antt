-- ===== src/Resmgr/Ocb/Awake.antt =====
-- The steps of `rx_loop` and of the other threads, and that a step of each leaves the state awake.
use dev_can_linux.Base.{
  ℕ, ◌≤◌, ◌<◌, ◌≡◌, refl, subst, inl, inr, ◌⊎◌, List-cases, Bool-cases, Bool, true, false, not,
  ◌&&◌, ◌||◌, List, [], ◌∷◌, ◌++◌, arith,
}
use dev_can_linux.Resmgr.Ocb.{
  Ocb, Thread, no_thread, testing, waiting, peeking, picking, sending, exited, faulted, loop_test,
  pick_client, rx_loop, client_blocks, client_leaves, shut_down, close_queue,
}

-- The thread and the other threads take turns in any order. It wakes in `pthread_cond_wait` also
-- without a signal, as POSIX allows. A handler that answers a client removes it from the list at any
-- time.
pub data Step : Ocb → Ocb → Type 0 where
  own : (s : Ocb) (got served : Bool) → Step s (rx_loop got served s)
  block : (s : Ocb) (rcvid : ℕ) → Step s (client_blocks rcvid s)
  shut : (s : Ocb) → Step s (shut_down s)
  close : (s : Ocb) → Step s (close_queue s)
  answer : (s : Ocb) (rcvid : ℕ) → Step s (client_leaves rcvid s)

pub data Reach (s : Ocb) : Ocb → Type 0 where
  here : Reach s s
  next : {t u : Ocb} → Reach s t → Step t u → Reach s u

abbrev pub is_empty : List ℕ → Bool
is_empty [] = true
is_empty (c ∷ cs) = false

-- A thread that waits has been signalled since if a client is blocked or the queue is gone; one that
-- has left the loop test has a client; one that has picked a client has it at the head.
abbrev pub IsAwake : Thread → Ocb → Type 0
IsAwake (waiting n) s =
    (n ≤ s.signals) × ((is_empty s.blocked_clients ≡ false) ⊎ (s.has_queue ≡ false) → n < s.signals)
IsAwake peeking s = is_empty s.blocked_clients ≡ false
IsAwake picking s = is_empty s.blocked_clients ≡ false
IsAwake faulted s = ⊥
IsAwake _ s = Unit

-- The state is awake wherever its thread stands.
abbrev pub Awake : Ocb → Type 0
Awake s = IsAwake s.thread s

pub loop_test-Awake : (s : Ocb) → Awake (loop_test s)
unfolding loop_test
loop_test-Awake s = elim (List-cases s.blocked_clients) [
  | inl n ↦ elim (Bool-cases (not s.shutdown && s.has_queue)) [
    | inl waits ↦
        let e : record s { thread = waiting s.signals } ≡ loop_test s = ground arith in
        subst Awake e (
          omega arith,
          λ owed. elim owed [ inl c ↦ absurd (ground arith) | inr q ↦ absurd (ground arith) ],
        )
    | inr leaves ↦
        let e : record s { thread = exited } ≡ loop_test s = ground arith in subst Awake e tt
  ]
  | inr (c, cs, l) ↦ elim (Bool-cases (s.shutdown || not s.has_queue)) [
    | inl leaves ↦
        let e : record s { thread = exited } ≡ loop_test s = ground arith in subst Awake e tt
    | inr goes ↦
        let e : record s { thread = peeking } ≡ loop_test s = ground arith in
        let some_client : is_empty s.blocked_clients ≡ false = rw l refl in
        subst Awake e some_client
  ]
]

pick_client-Awake : (s : Ocb) → is_empty s.blocked_clients ≡ false → Awake (pick_client s)
unfolding pick_client
pick_client-Awake s e = elim (List-cases s.blocked_clients) [
  | inl n ↦ absurd (ground arith)
  | inr (c, cs, l) ↦
      let picked : record s { thread = sending c; sent = s.sent ++ (c ∷ []) } ≡ pick_client s =
        ground arith in
      subst Awake picked tt
]

-- A step of the thread, from any place where it is awake.
pub rx_loop-Awake :
    (t : Thread) (s : Ocb) (got served : Bool)
    → IsAwake t s
    → Awake (rx_loop got served (record s { thread = t }))
unfolding rx_loop
rx_loop-Awake no_thread s got served a = tt
rx_loop-Awake testing s got served a = loop_test-Awake (record s { thread = testing })
rx_loop-Awake (waiting n) s got served a = loop_test-Awake (record s { thread = waiting n })
rx_loop-Awake peeking s got served a = elim (Bool-cases (got && s.has_queue)) [
  | inl t ↦ rw t a
  | inr f ↦ rw f tt
]
rx_loop-Awake picking s got served a = pick_client-Awake (record s { thread = picking }) a
rx_loop-Awake (sending c) s got served a = tt
rx_loop-Awake exited s got served a = tt
rx_loop-Awake faulted s got served a = elim a [ ]

is_empty-append : (cs : List ℕ) (c : ℕ) → is_empty (cs ++ (c ∷ [])) ≡ false
is_empty-append [] c = refl
is_empty-append (d ∷ cs) c = refl

pub client_blocks-Awake :
    (t : Thread) (s : Ocb) (c : ℕ) → IsAwake t s → IsAwake t (client_blocks c s)
unfolding client_blocks
client_blocks-Awake no_thread s c a = tt
client_blocks-Awake testing s c a = tt
client_blocks-Awake (waiting n) s c (l, a) = (omega arith, λ owed. omega arith)
client_blocks-Awake peeking s c a = is_empty-append s.blocked_clients c
client_blocks-Awake picking s c a = is_empty-append s.blocked_clients c
client_blocks-Awake (sending d) s c a = tt
client_blocks-Awake exited s c a = tt
client_blocks-Awake faulted s c a = a

pub close_queue-Awake : (t : Thread) (s : Ocb) → IsAwake t s → IsAwake t (close_queue s)
unfolding close_queue
close_queue-Awake no_thread s a = tt
close_queue-Awake testing s a = tt
close_queue-Awake (waiting n) s (l, a) = (omega arith, λ owed. omega arith)
close_queue-Awake peeking s a = a
close_queue-Awake picking s a = a
close_queue-Awake (sending d) s a = tt
close_queue-Awake exited s a = tt
close_queue-Awake faulted s a = a

pub shut_down-Awake : (t : Thread) (s : Ocb) → IsAwake t s → IsAwake t (shut_down s)
unfolding shut_down
shut_down-Awake no_thread s a = a
shut_down-Awake testing s a = a
shut_down-Awake (waiting n) s a = a
shut_down-Awake peeking s a = a
shut_down-Awake picking s a = a
shut_down-Awake (sending d) s a = a
shut_down-Awake exited s a = a
shut_down-Awake faulted s a = a
