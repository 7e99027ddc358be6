-- ===== src/Resmgr/Devctl/Frame.antt =====
-- The commands for single messages.
use dev_can_linux.Base.{
  subst, ℕ, ◌<◌, ◌≡◌, refl, sym, ap, ◌∙◌, Bool, true, false, Option, none, some, List, eio, eagain,
  inl, inr, Option-cases,
}
use dev_can_linux.Queue.{
  CanMsg, Queue, Outcome, slot, null, retry, wait, fault, message_at, dequeue_noblock,
}
use dev_can_linux.Queue.Fifo.{contents, count, pop_fresh}
use dev_can_linux.Queue.Invariant.{IsValid}
use dev_can_linux.Queue.Take.{reply, dequeue_noblock-Takes}
use dev_can_linux.Resmgr.{rx_channel, tx_channel}
use dev_can_linux.Resmgr.Read.{has, remove_client}
use dev_can_linux.Resmgr.Read.Whole.{has-remove, has-append_self}
use dev_can_linux.Resmgr.Devctl.{
  Reach, Reply, failed, no_reply, done, message, with_clients, store_client, frame_dequeued,
  read_frame,
}

-- What a client gets that asks for a message, and what becomes of it. `fresh` is what a queue of the messages
-- gives when the stale ones are left out.
pub data Gets (blocking : Bool) (rcvid : ℕ) : Option CanMsg → Reply × Reach → Type 0 where
  got :
      (m : CanMsg) {s : Reach}
      → has rcvid s.rx.blocked_clients ≡ false
      → Gets blocking rcvid (some m) (done (message m), s)
  blocked :
      {s : Reach}
      → blocking ≡ true
      → has rcvid s.rx.blocked_clients ≡ true
      → Gets blocking rcvid none (no_reply, s)
  refused : {s : Reach} → blocking ≡ false → Gets blocking rcvid none (failed eagain, s)

pub read_frame_lem :
    (fuel : ℕ) (clock : ℕ → ℕ) (blocking : Bool) (rcvid : ℕ) (s : Reach)
    → s.resmgr.channel_type ≡ rx_channel
    → read_frame fuel clock blocking rcvid s
      ≡ frame_dequeued blocking rcvid
          (dequeue_noblock fuel s.resmgr.latency_limit_ms clock s.rx.rx_queue)
          s
unfolding read_frame
read_frame_lem fuel clock blocking rcvid s e = rw e refl

-- On the transmit channel there are no messages to read.
pub read_frame-tx :
    (fuel : ℕ) (clock : ℕ → ℕ) (blocking : Bool) (rcvid : ℕ) (s : Reach)
    → s.resmgr.channel_type ≡ tx_channel
    → read_frame fuel clock blocking rcvid s ≡ some (failed eio, s)
unfolding read_frame
read_frame-tx fuel clock blocking rcvid s e = rw e refl

-- The queue that the client's session is left with, and the answer.
pub record Serves (blocking : Bool) (rcvid : ℕ) (fresh : Option CanMsg) (left : List CanMsg)
    (out : Reply × Reach) : Type 0 where
  pub gets : Gets blocking rcvid fresh out
  pub valid : IsValid out.1.rx.rx_queue
  pub leaves : contents out.1.rx.rx_queue ≡ left

abbrev the_reply : (o : Option (Option CanMsg)) → Option CanMsg
the_reply none = none
the_reply (some r) = r

got_at :
    (rcvid i : ℕ) (q : Queue) (m : CanMsg) {fresh : Option CanMsg}
    → message_at q i ≡ some m
    → reply q (slot i) ≡ some fresh
    → some m ≡ fresh
unfolding reply
got_at rcvid i q m {fresh} at r =
    let shown : reply q (slot i) ≡ some (some m) = rw (reply, at) refl in
    ap the_reply (sym shown ∙ r)

no_message :
    (i : ℕ) (q : Queue) {fresh : Option CanMsg}
    → message_at q i ≡ none
    → reply q (slot i) ≡ some fresh
    → ⊥
unfolding reply
no_message i q {fresh} at r = let shown : reply q (slot i) ≡ none = rw (reply, at) refl in cc

frame_dequeued-Serves :
    (blocking : Bool) (rcvid : ℕ) (fresh : Option CanMsg) (left : List CanMsg) (o : Outcome)
    (q : Queue) (s : Reach)
    → IsValid q
    → contents q ≡ left
    → reply q o ≡ some fresh
    → (out : Reply × Reach) × (frame_dequeued blocking rcvid (o, q) s ≡ some out)
      × Serves blocking rcvid fresh left out
unfolding frame_dequeued reply with_clients
frame_dequeued-Serves blocking rcvid fresh left (slot i) q s v e r =
    elim (Option-cases (message_at q i)) [
      | inl at ↦ absurd (no_message i q at r)
      | inr (m, at) ↦
          let t =
            with_clients (remove_client rcvid) (record s { rx = record s.rx { rx_queue = q } }) in
          (
            (done (message m), t),
            rw (frame_dequeued, at) refl,
            record {
              gets =
                  subst (λ f. Gets blocking rcvid f (done (message m), t)) (got_at rcvid i q m at r)
                    (got m (has-remove rcvid s.rx.blocked_clients));
              valid = v;
              leaves = e;
            },
          )
    ]
frame_dequeued-Serves true rcvid fresh left null q s v e r =
    let t = with_clients (store_client rcvid) (record s { rx = record s.rx { rx_queue = q } }) in
    (
      (no_reply, t),
      refl,
      record {
        gets =
            subst (λ f. Gets true rcvid f (no_reply, t)) (ap the_reply r)
              (blocked refl (has-append_self rcvid s.rx.blocked_clients));
        valid = v;
        leaves = e;
      },
    )
frame_dequeued-Serves false rcvid fresh left null q s v e r =
    let t = record s { rx = record s.rx { rx_queue = q } } in
    (
      (failed eagain, t),
      refl,
      record {
        gets = subst (λ f. Gets false rcvid f (failed eagain, t)) (ap the_reply r) (refused refl);
        valid = v;
        leaves = e;
      },
    )
frame_dequeued-Serves blocking rcvid fresh left retry q s v e r = absurd (cc)
frame_dequeued-Serves blocking rcvid fresh left wait q s v e r = absurd (cc)
frame_dequeued-Serves blocking rcvid fresh left fault q s v e r = absurd (cc)

-- A client that asks the receive channel for a message, with more rounds than there are messages in
-- its session's valid queue, gets the oldest one that the latency limit lets pass, and is then not
-- among the blocked clients; the stale ones before it are gone and the others stay in order. If
-- there is none, the blocking commands give no reply and enter the client among the blocked ones,
-- and the other one fails with EAGAIN.
pub read_frame-Serves :
    (fuel : ℕ) (clock : ℕ → ℕ) (blocking : Bool) (rcvid : ℕ) (s : Reach)
    → s.resmgr.channel_type ≡ rx_channel
    → IsValid s.rx.rx_queue
    → s.rx.rx_queue.session_up ≡ true
    → count s.rx.rx_queue < fuel
    → let (fresh, left) = pop_fresh s.resmgr.latency_limit_ms clock (contents s.rx.rx_queue) in
      (out : Reply × Reach) × (read_frame fuel clock blocking rcvid s ≡ some out)
      × Serves blocking rcvid fresh left out
read_frame-Serves fuel clock blocking rcvid s c v up f =
    let t = dequeue_noblock-Takes fuel s.resmgr.latency_limit_ms clock v up f in
    let (o, q) = dequeue_noblock fuel s.resmgr.latency_limit_ms clock s.rx.rx_queue in
    let (out, e, served) =
      frame_dequeued-Serves blocking rcvid _ _ o q s t.valid t.leaves t.gives in
    (out, read_frame_lem fuel clock blocking rcvid s c ∙ e, served)
