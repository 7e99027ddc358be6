-- ===== src/Resmgr/Read/Overrun.antt =====
-- Reads that the source does not foresee.
use dev_can_linux.Base.{
  ℕ, suc, ◌+◌, ◌-◌, ◌%◌, ◌^◌, ◌≤◌, ◌<◌, ◌≡◌, refl, ◌∙◌, ap, true, false, Option, none, some, List,
  arith, length, span, length-span, ltb, ◌==◌, eok,
}
use dev_can_linux.Queue.{CanMsg}
use dev_can_linux.Resmgr.{Rx, rx_channel}
use dev_can_linux.Resmgr.Read.{
  reply, end_of, copy_message, read_message, finish_read, io_read, read_loop,
}
use dev_can_linux.Resmgr.Read.Whole.{grow_owned, io_read_lem}

loop-more : (fuel size : ℕ) (r : Rx) → size ≤ r.nbytes → read_loop (suc fuel) size r ≡ some r
unfolding read_loop
loop-more fuel size r h = ground arith

finish-more :
    (rcvid size : ℕ) (r : Rx) (b : List ℕ)
    → size ≤ r.nbytes
    → r.read_buffer ≡ some b
    → (finish_read rcvid size r).0 ≡ reply (span b 0 r.nbytes)
unfolding finish_read
finish-more rcvid size r b h e =
    let enough : ltb r.nbytes size ≡ false = ground arith in rw enough (rw e refl)

-- A read that asks for fewer bytes than an earlier, blocked one has gathered is given all of those,
-- that is more than it asks for.
pub io_read-exceeds :
    (fuel rcvid size : ℕ) (block : Option (List ℕ)) (r : Rx) (b : List ℕ)
    → (r.rx_queue.size == 0) ≡ false
    → r.read_buffer ≡ some b
    → size ≤ r.read_size
    → r.nbytes ≤ length b
    → size < r.nbytes
    → (bytes : List ℕ) × (s : Rx) × (io_read (suc fuel) eok true rx_channel rcvid size block r
        ≡ some (reply bytes, s))
      × (size < length bytes)
io_read-exceeds fuel rcvid size block r b q e h n l =
    let runs =
      io_read_lem (suc fuel) rcvid size block r r r q (grow_owned size block r b e h)
        (loop-more fuel size r (omega arith)) in
    let gives = finish-more rcvid size r b (omega arith) e in
    (
      span b 0 r.nbytes,
      (finish_read rcvid size r).1,
      runs ∙ ap (λ a. some (a, (finish_read rcvid size r).1)) gives,
      omega (arith, length-span b 0 r.nbytes),
    )

-- Where the message that `offset` was counted in has been dropped from the queue and the one now at
-- the head is shorter than `offset`, the size of the copy wraps round and the copy leaves the
-- message's data.
pub read_message-none :
    (size : ℕ) (m : CanMsg) (buffer : List ℕ) (r : Rx)
    → m.len < r.offset
    → r.offset ≤ 8
    → length m.dat ≡ 8
    → r.offset ≤ r.nbytes + m.len
    → r.nbytes + m.len - r.offset ≤ size
    → r.nbytes < 2 ^ 63
    → read_message size m buffer r ≡ none
unfolding read_message copy_message
read_message-none size m buffer r l o d h s n =
    let wraps : (m.len + 2 ^ 64 - r.offset) % 2 ^ 64 ≡ m.len + 2 ^ 64 - r.offset = omega arith in
    let ends : end_of r.nbytes m.len r.offset ≡ r.nbytes + m.len - r.offset = omega arith in
    ground (arith, wraps, ends)
