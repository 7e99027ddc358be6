-- ===== src/Netif/Transmit.antt =====
-- `netif_tx` from the queue of a device to the bus, or to the clients of a virtual device.
use dev_can_linux.Base.{
  ℕ, ◌≡◌, refl, ap, ◌∙◌, ◌≢◌, Bool, true, false, ◌==◌, List, [], ◌∷◌, ◌++◌, some, arith,
}
use dev_can_linux.Queue.{CanMsg, Queue, slot, message_at, dequeue}
use dev_can_linux.Queue.Fifo.{contents}
use dev_can_linux.Queue.Invariant.{IsValid}
use dev_can_linux.Queue.Ready.{dequeue-ready}
use dev_can_linux.Netif.{
  CanFrame, Device, tx_frame, tx_message, tx_dequeued, tx_round, tx_goes, deliver,
}
use dev_can_linux.Netif.Mid.{IsSendable, IsFrameOf, tx_frame-IsFrameOf}
use dev_can_linux.Netif.Broadcast.{AllReady, AllServed, broadcast-AllServed}

-- The transmit queue has a message and is neither stopped nor shut down.
pub record IsSending (d : Device) (m : CanMsg) (rest : List CanMsg) : Type 0 where
  pub valid : IsValid d.tx_queue
  pub up : d.tx_queue.session_up ≡ true
  pub runs : d.tx_queue.stopped ≡ false
  pub holds : contents d.tx_queue ≡ m ∷ rest

tx_dequeued-slot :
    (mfilter : ℕ → ℕ) (allocated : Bool) (i : ℕ) (q : Queue) (m : CanMsg) (d : Device)
    → message_at q i ≡ some m
    → tx_dequeued mfilter allocated (slot i, q) d
      ≡ tx_message mfilter allocated m (record d { tx_queue = q })
unfolding tx_dequeued
tx_dequeued-slot mfilter allocated i q m d e = rw (e, tx_dequeued)

-- A round takes the oldest message and no other.
tx_round-message :
    (mfilter : ℕ → ℕ) (allocated : Bool) (clock : ℕ) (d : Device) (m : CanMsg) (rest : List CanMsg)
    → IsSending d m rest
    → (q : Queue) × (tx_round mfilter allocated clock d
        ≡ tx_message mfilter allocated m (record d { tx_queue = q }))
      × (contents q ≡ rest)
      × IsValid q
unfolding tx_round
tx_round-message mfilter allocated clock d m rest s =
    let (took, at, left, v) = dequeue-ready clock m rest s.valid s.up s.runs s.holds in
    let out = dequeue 0 clock d.tx_queue in
    let some_size : (d.tx_queue.size == 0) ≡ false = ground (arith, s.valid.roomy) in
    (
      out.1,
      rw some_size (
          ap (λ o. tx_dequeued mfilter allocated (o, out.1) d) took
          ∙ tx_dequeued-slot mfilter allocated d.tx_queue.begin out.1 m d at),
      left,
      v,
    )

tx_message-real :
    (mfilter : ℕ → ℕ) (m : CanMsg) (d : Device) (f : CanFrame)
    → d.irq ≢ 0
    → tx_frame m ≡ some f
    → tx_message mfilter true m d ≡ (tx_goes, record d { sent = d.sent ++ (f ∷ []) })
unfolding tx_message
tx_message-real mfilter m d f real made =
    let irq : (d.irq == 0) ≡ false = ground arith in simp irq (rw (made, tx_message))

tx_message-virtual :
    (mfilter : ℕ → ℕ) (allocated : Bool) (m : CanMsg) (d : Device)
    → d.irq ≡ 0
    → tx_message mfilter allocated m d ≡ (tx_goes, deliver mfilter m d)
unfolding tx_message
tx_message-virtual mfilter allocated m d virtual =
    let irq : (d.irq == 0) ≡ true = ground arith in simp irq

-- The frame that `tx_frame` makes is handed over.
pub tx_round-frame :
    (mfilter : ℕ → ℕ) (clock : ℕ) (d : Device) (m : CanMsg) (rest : List CanMsg) (f : CanFrame)
    → d.irq ≢ 0
    → IsSending d m rest
    → tx_frame m ≡ some f
    → let (next, r) = tx_round mfilter true clock d in
      (next ≡ tx_goes)
      × (r.sent ≡ d.sent ++ (f ∷ []))
      × (contents r.tx_queue ≡ rest)
      × (r.clients ≡ d.clients)
tx_round-frame mfilter clock d m rest f real s made =
    let (q, runs, left, v) = tx_round-message mfilter true clock d m rest s in
    let e = runs ∙ tx_message-real mfilter m (record d { tx_queue = q }) f real made in
    rw e (refl, refl, left, refl)

-- On a device with an interrupt, where a buffer is allocated and the transmit queue is up and not
-- stopped, a round of `netif_tx` takes the oldest message, which has an identifier of 29 bits and
-- at most eight bytes, and hands its frame, and nothing else, to the driver, behind those handed over
-- before.
pub tx_round-sends :
    (mfilter : ℕ → ℕ) (clock : ℕ) (d : Device) (m : CanMsg) (rest : List CanMsg)
    → d.irq ≢ 0
    → IsSending d m rest
    → IsSendable m
    → let (next, r) = tx_round mfilter true clock d in
      (f : CanFrame) × IsFrameOf m f
      × (next ≡ tx_goes)
      × (r.sent ≡ d.sent ++ (f ∷ []))
      × (contents r.tx_queue ≡ rest)
      × (r.clients ≡ d.clients)
tx_round-sends mfilter clock d m rest real s ok =
    let (f, made, of) = tx_frame-IsFrameOf m ok in
    let (next, sent, left, clients) = tx_round-frame mfilter clock d m rest f real s made in
    (f, of, next, sent, left, clients)

-- On a virtual device, where the transmit queue is up and not stopped, and the queues of all clients
-- are up and do not wrap onto their first message, a round takes the oldest message and serves the
-- device's own clients with it; nothing goes to a driver.
pub tx_round-AllServed :
    (mfilter : ℕ → ℕ) (allocated : Bool) (clock : ℕ) (d : Device) (m : CanMsg) (rest : List CanMsg)
    → d.irq ≡ 0
    → IsSending d m rest
    → AllReady d.clients
    → let (next, r) = tx_round mfilter allocated clock d in
      (next ≡ tx_goes)
      × AllServed mfilter m d.clients r.clients
      × (contents r.tx_queue ≡ rest)
      × (r.sent ≡ d.sent)
unfolding deliver
tx_round-AllServed mfilter allocated clock d m rest virtual s ready =
    let (q, runs, left, v) = tx_round-message mfilter allocated clock d m rest s in
    let e = runs ∙ tx_message-virtual mfilter allocated m (record d { tx_queue = q }) virtual in
    rw e (refl, broadcast-AllServed mfilter m d.clients ready, left, refl)
