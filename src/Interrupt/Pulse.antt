-- ===== src/Interrupt/Pulse.antt =====
-- The queues after a pulse.
use dev_can_linux.Base.{
  ℕ, ◌≡◌, ◌≢◌, refl, ap, ◌∙◌, Bool, true, false, ◌||◌, ◌&&◌, ◌+◌, some, List, [], ◌∷◌, arith, ◌==◌,
  if◌then◌else◌, inl, inr, Bool-cases, if-same,
}
use dev_can_linux.Queue.{Queue, queue_wake_pending, queue_start_signal, queue_awake}
use dev_can_linux.Links.{write}
use dev_can_linux.Interrupt.{Handler}
use dev_can_linux.Interrupt.Loop.{Drivers, wake_queue, wake_queues}

-- Is one of the handlers for the device?
abbrev pub serves : ℕ → List Handler → Bool
serves dev [] = false
serves dev (h ∷ hs) = (dev == h.dev) || serves dev hs

wake_twice : (q : Queue) → wake_queue (wake_queue q) ≡ wake_queue q
unfolding wake_queue queue_wake_pending queue_awake queue_start_signal
wake_twice q = ground arith

wake_queue_lem :
    (q : Queue)
    → wake_queue q ≡ (
        if q.wake_pending
        then record q { stopped = false; wake_pending = false; cond = q.cond + 1 }
        else q)
unfolding wake_queue queue_wake_pending queue_awake queue_start_signal
wake_queue_lem q = refl

-- The queues that `wake_queues` leaves where no device lacks a session.
abbrev woken : List Handler → (ℕ → Queue) → ℕ → Queue
woken [] tx = tx
woken (h ∷ hs) tx = woken hs (write tx h.dev (wake_queue (tx h.dev)))

wake_served :
    (hs : List Handler) (tx : ℕ → Queue) (dev : ℕ)
    → woken hs tx dev ≡ (if serves dev hs then wake_queue (tx dev) else tx dev)
wake_served [] tx dev = refl
wake_served (h ∷ hs) tx dev =
    wake_served hs (write tx h.dev (wake_queue (tx h.dev))) dev ∙ elim (Bool-cases (dev == h.dev)) [
      | inl same ↦
          let e : h.dev ≡ dev = ground arith in
          rw (same, wake_twice (tx h.dev))
            (if-same (serves dev hs) (wake_queue (tx h.dev)) ∙ ap (λ d. wake_queue (tx d)) e)
      | inr other ↦ rw other refl
    ]

wake_queues-some :
    (d : Drivers) (hs : List Handler) (tx : ℕ → Queue)
    → ((dev : ℕ) → serves dev hs ≡ true → d.session dev ≢ 0)
    → wake_queues d hs tx ≡ some (woken hs tx)
unfolding wake_queues
wake_queues-some d [] tx s = refl
wake_queues-some d (h ∷ hs) tx s =
    let here : d.session h.dev ≢ 0 = s h.dev (ground arith) in
    let rest =
      wake_queues-some d hs (write tx h.dev (wake_queue (tx h.dev)))
        (λ dev p. s dev (ground arith)) in
    ground arith

-- At the end of a round, where every device that has a handler has a session, the transmit queue of
-- each such device, if it was to be woken, is started, signalled once and no longer to be woken, and
-- the other queues are as they were.
pub wake_queues_lem :
    (d : Drivers) (hs : List Handler) (tx : ℕ → Queue)
    → ((dev : ℕ) → serves dev hs ≡ true → d.session dev ≢ 0)
    → (after : ℕ → Queue) × (wake_queues d hs tx ≡ some after)
      × ((dev : ℕ)
          → after dev ≡ (
              if serves dev hs && (tx dev).wake_pending
              then record (tx dev) {
                stopped = false;
                wake_pending = false;
                cond = (tx dev).cond + 1;
              }
              else tx dev))
wake_queues_lem d hs tx s = (
  woken hs tx,
  wake_queues-some d hs tx s,
  λ dev. wake_served hs tx dev ∙ elim (Bool-cases (serves dev hs)) [
    | inl t ↦ rw t (wake_queue_lem (tx dev))
    | inr f ↦ rw f refl
  ],
)
