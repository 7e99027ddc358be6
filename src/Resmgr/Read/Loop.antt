-- ===== src/Resmgr/Read/Loop.antt =====
-- One round of the loop of `io_read`.
use dev_can_linux.Base.{
  ℕ, ◌+◌, ◌-◌, ◌%◌, ◌^◌, ◌≤◌, ◌<◌, ◌≡◌, refl, true, false, none, some, List, ◌++◌, arith, length,
  span, leb,
}
use dev_can_linux.Queue.{
  CanMsg, Queue, dequeue_noblock, dequeue_peek_noblock, message_at, slot, null,
}
use dev_can_linux.Queue.Fifo.{contents}
use dev_can_linux.Queue.Invariant.{IsValid}
use dev_can_linux.Resmgr.{Rx}
use dev_can_linux.Resmgr.Read.{put_bytes, end_of, copy_message, read_message, peek}
use dev_can_linux.Resmgr.Read.Stream.{pending, filled, IsWhole, AllWhole, IsInFirst}

-- The state in which a read of `size` bytes goes on.
pub record IsReading (size : ℕ) (r : Rx) : Type 0 where
  pub valid : IsValid r.rx_queue
  pub up : r.rx_queue.session_up ≡ true
  pub whole : AllWhole (contents r.rx_queue)
  pub first : IsInFirst r.offset (contents r.rx_queue)
  pub buffer : List ℕ
  pub held : r.read_buffer ≡ some buffer
  pub fits : size ≤ length buffer
  pub within : r.nbytes ≤ size
  pub small : size < 2 ^ 63

-- No byte is lost, doubled or moved on the way from `r` to `s`, and the clients are the same.
pub record Keeps (r s : Rx) : Type 0 where
  pub bytes : filled s ++ pending s ≡ filled r ++ pending r
  pub clients : s.blocked_clients ≡ r.blocked_clients

copy_message-some :
    (n : ℕ) (m : CanMsg) (buffer : List ℕ) (r : Rx)
    → r.offset + n ≤ length m.dat
    → r.nbytes + n ≤ length buffer
    → copy_message n m buffer r
      ≡ some (record r {
        read_buffer = some (put_bytes buffer r.nbytes (span m.dat r.offset n));
        nbytes = r.nbytes + n;
      })
unfolding copy_message
copy_message-some n m buffer r h l = ground arith

end_of_lem :
    (nbytes len offset : ℕ)
    → len ≤ 8
    → offset ≤ len
    → nbytes < 2 ^ 63
    → end_of nbytes len offset ≡ nbytes + (len - offset)
end_of_lem nbytes len offset w o n = omega arith

pub peek-none : (q : Queue) → dequeue_peek_noblock q ≡ null → peek q ≡ some none
unfolding peek
peek-none q e = rw (peek, e) refl

pub peek-some :
    (q : Queue) (i : ℕ) (m : CanMsg)
    → dequeue_peek_noblock q ≡ slot i
    → message_at q i ≡ some m
    → peek q ≡ some (some m)
unfolding peek
peek-some q i m e at = rw (peek, e) (rw at refl)

-- Where the message fits, it is copied from `offset` on and leaves the queue.
pub all_message :
    (size : ℕ) (m : CanMsg) (buffer : List ℕ) (r : Rx)
    → IsWhole m
    → r.offset ≤ m.len
    → size ≤ length buffer
    → size < 2 ^ 63
    → r.nbytes + (m.len - r.offset) ≤ size
    → read_message size m buffer r
      ≡ some (record r {
        read_buffer = some (put_bytes buffer r.nbytes (span m.dat r.offset (m.len - r.offset)));
        nbytes = r.nbytes + (m.len - r.offset);
        offset = 0;
        rx_queue = (dequeue_noblock 1 0 (λ i. 0) r.rx_queue).1;
      })
unfolding read_message
all_message size m buffer r w o f s h =
    let same : (m.len + 2 ^ 64 - r.offset) % 2 ^ 64 ≡ m.len - r.offset = omega (arith, w) in
    let fits : leb (end_of r.nbytes m.len r.offset) size ≡ true =
      rw (end_of_lem r.nbytes m.len r.offset (w.0) o (omega arith)) (ground arith) in
    let copied =
      copy_message-some (m.len - r.offset) m buffer r (omega (arith, w)) (omega (arith, w)) in
    rw (fits, same) (rw copied refl)

-- Where it does not, what the client still asks for is copied.
pub part_message :
    (size : ℕ) (m : CanMsg) (buffer : List ℕ) (r : Rx)
    → IsWhole m
    → r.offset ≤ m.len
    → size ≤ length buffer
    → size < 2 ^ 63
    → r.nbytes ≤ size
    → size < r.nbytes + (m.len - r.offset)
    → read_message size m buffer r
      ≡ some (record r {
        read_buffer = some (put_bytes buffer r.nbytes (span m.dat r.offset (size - r.nbytes)));
        nbytes = r.nbytes + (size - r.nbytes);
        offset = r.offset + (size - r.nbytes);
      })
unfolding read_message
part_message size m buffer r w o f s n h =
    let misfits : leb (end_of r.nbytes m.len r.offset) size ≡ false =
      rw (end_of_lem r.nbytes m.len r.offset (w.0) o (omega arith)) (ground arith) in
    let copied = copy_message-some (size - r.nbytes) m buffer r (omega (arith, w)) (omega arith) in
    rw misfits (rw copied refl)
