-- ===== src/Resmgr/Read/Whole.antt =====
-- `io_read` as a whole: what the client is given, and what stays for the next read.
use dev_can_linux.Base.{
  append-nil, drop_nil, ℕ, ◌+◌, ◌≤◌, ◌<◌, ◌≡◌, refl, ap, ◌∙◌, sym, inl, inr, true, false, Option,
  none, some, List, [], ◌∷◌, ◌++◌, arith, length, span, span_none, length-span, drop, ltb, ◌==◌,
  ◌^◌, eok, lt_or_eq,
}
use dev_can_linux.Queue.Fifo.{contents}
use dev_can_linux.Queue.Invariant.{IsValid}
use dev_can_linux.Resmgr.{Rx, rx_channel}
use dev_can_linux.Resmgr.Read.{
  Reply, no_reply, reply, has, block_client, remove_client, grow_buffer, finish_read, io_read,
  read_loop,
}
use dev_can_linux.Resmgr.Read.Stream.{stream, pending, filled, AllWhole, IsInFirst}
use dev_can_linux.Resmgr.Read.Loop.{IsReading, Keeps}
use dev_can_linux.Resmgr.Read.Run.{Reads, read_loop_lem, Keeps-trans}

-- The buffer that the read finds: one of its own that is large enough, or none yet, with nothing
-- of an earlier read in it, and then `malloc` gives the block it is asked for.
pub data HasBuffer (size : ℕ) (block : Option (List ℕ)) (r : Rx) : Type 0 where
  owned :
      (b : List ℕ)
      → r.read_buffer ≡ some b
      → size ≤ r.read_size
      → r.read_size ≤ length b
      → r.nbytes ≤ size
      → HasBuffer size block r
  unmade :
      (b : List ℕ)
      → r.read_buffer ≡ none
      → block ≡ some b
      → length b ≡ r.read_size + size
      → r.nbytes ≡ 0
      → HasBuffer size block r

-- What `io_read` finds.
pub record CanRead (size : ℕ) (block : Option (List ℕ)) (r : Rx) : Type 0 where
  pub valid : IsValid r.rx_queue
  pub up : r.rx_queue.session_up ≡ true
  pub whole : AllWhole (contents r.rx_queue)
  pub first : IsInFirst r.offset (contents r.rx_queue)
  pub small : size < 2 ^ 63
  pub memory : HasBuffer size block r

filled-none : (r : Rx) → r.read_buffer ≡ none → filled r ≡ []
filled-none r e = rw e refl

pub grow_owned :
    (size : ℕ) (block : Option (List ℕ)) (r : Rx) (b : List ℕ)
    → r.read_buffer ≡ some b
    → size ≤ r.read_size
    → grow_buffer size block r ≡ (some r, r)
unfolding grow_buffer
grow_owned size block r b e h = rw e (ground arith)

abbrev grown : ℕ → List ℕ → Rx → Rx
grown size b r = record r { read_buffer = some b; read_size = r.read_size + size }

grow_unmade :
    (size : ℕ) (block : Option (List ℕ)) (r : Rx) (b : List ℕ)
    → r.read_buffer ≡ none
    → block ≡ some b
    → grow_buffer size block r ≡ (some (grown size b r), grown size b r)
unfolding grow_buffer
grow_unmade size block r b e f = rw e (rw f refl)

-- The buffer is there when the loop begins.
grow_buffer-IsReading :
    (size : ℕ) {block : Option (List ℕ)} {r : Rx}
    → CanRead size block r
    → (t : Rx) × (grow_buffer size block r ≡ (some t, t))
      × IsReading size t
      × Keeps r t
      × (t.rx_queue ≡ r.rx_queue)
grow_buffer-IsReading size {block} {r} h = elim h.memory [
  | owned b e f l n ↦ (
    r,
    grow_owned size block r b e f,
    record {
      valid = h.valid;
      up = h.up;
      whole = h.whole;
      first = h.first;
      buffer = b;
      held = e;
      fits = omega arith;
      within = n;
      small = h.small;
    },
    record { bytes = refl; clients = refl },
    refl,
  )
  | unmade b e f l n ↦ (
    grown size b r,
    grow_unmade size block r b e f,
    record {
      valid = h.valid;
      up = h.up;
      whole = h.whole;
      first = h.first;
      buffer = b;
      held = refl;
      fits = omega arith;
      within = omega arith;
      small = h.small;
    },
    record {
      bytes = ap (λ xs. xs ++ pending r) (ap (span b 0) n ∙ span_none b 0 ∙ sym (filled-none r e));
      clients = refl;
    },
    refl,
  )
]

-- What the client gets, out of the bytes that were there, and what stays: the bytes it asked for,
-- with it no longer among the blocked clients; or no reply yet, with all that was received in the
-- buffer and the client among the blocked ones.
pub data Answers (rcvid size : ℕ) (r : Rx) : Reply × Rx → Type 0 where
  answered :
      (bytes : List ℕ) {s : Rx}
      → length bytes ≡ size
      → bytes ++ pending s ≡ filled r ++ pending r
      → filled s ≡ []
      → has rcvid s.blocked_clients ≡ false
      → Answers rcvid size r (reply bytes, s)
  blocked :
      {s : Rx}
      → length (filled s) < size
      → filled s ≡ filled r ++ pending r
      → pending s ≡ []
      → has rcvid s.blocked_clients ≡ true
      → Answers rcvid size r (no_reply, s)

pub has-remove : (x : ℕ) (cs : List ℕ) → has x (remove_client x cs) ≡ false
unfolding remove_client
has-remove x [] = refl
has-remove x (c ∷ cs) = ground (arith, has-remove x cs)

pub has-append_self : (x : ℕ) (cs : List ℕ) → has x (cs ++ (x ∷ [])) ≡ true
has-append_self x [] = ground arith
has-append_self x (c ∷ cs) = ground (arith, has-append_self x cs)

has-block : (x : ℕ) (cs : List ℕ) → has x (block_client x cs) ≡ true
has-block x cs = ground (arith, has-append_self x cs)

length-filled : {size : ℕ} {s : Rx} → IsReading size s → length (filled s) ≡ s.nbytes
length-filled {size} {s} h =
    rw h.held (length-span h.buffer 0 s.nbytes (omega (arith, h.within, h.fits)))

finish_read-Answers :
    (rcvid size : ℕ) {r s : Rx} → Reads size r s → Answers rcvid size r (finish_read rcvid size s)
unfolding finish_read
finish_read-Answers rcvid size {r} {s} h = elim (lt_or_eq h.reading.within) [
  | inl less ↦
      let short : ltb s.nbytes size ≡ true = ground arith in
      let nothing : contents s.rx_queue ≡ [] = elim h.stops [
        | inl full ↦ absurd (omega arith)
        | inr empty ↦ empty
      ] in
      let none_left = ap (λ ms. drop s.offset (stream ms)) nothing ∙ drop_nil s.offset in
      rw short (
        blocked (omega (arith, length-filled h.reading))
          (sym (append-nil (filled s)) ∙ ap (λ xs. filled s ++ xs) (sym none_left) ∙ h.keeps.bytes)
          none_left (has-block rcvid s.blocked_clients))
  | inr full ↦
      let enough : ltb s.nbytes size ≡ false = ground arith in
      rw enough (
        answered (filled s) (length-filled h.reading ∙ full) h.keeps.bytes
          (rw h.reading.held (span_none h.reading.buffer 0)) (has-remove rcvid s.blocked_clients))
]

pub io_read_lem :
    (fuel rcvid size : ℕ) (block : Option (List ℕ)) (r t s : Rx)
    → (r.rx_queue.size == 0) ≡ false
    → grow_buffer size block r ≡ (some t, t)
    → read_loop fuel size t ≡ some s
    → io_read fuel eok true rx_channel rcvid size block r ≡ some (finish_read rcvid size s)
unfolding io_read
io_read_lem fuel rcvid size block r t s h e l = rw (h, e) (rw l refl)

-- `io_read` on the receive channel, with more rounds than there are messages and one, where the queue
-- is up, each message has as many bytes as its `len` says, and either the buffer is there and large
-- enough and no more has been gathered than is asked for, or no buffer was made yet, nothing has been
-- gathered and one is allocated, returns: it gives the client exactly as many bytes as it asks for, the oldest that were
-- received, and keeps the rest in order; or, where there are not as many, it keeps all of them for
-- the next read and leaves the client blocked.
pub io_read-Answers :
    (fuel rcvid size : ℕ) {block : Option (List ℕ)} {r : Rx}
    → CanRead size block r
    → length (contents r.rx_queue) + 1 < fuel
    → (out : Reply × Rx) × (io_read fuel eok true rx_channel rcvid size block r ≡ some out)
      × Answers rcvid size r out
io_read-Answers fuel rcvid size {block} {r} h f =
    let (t, grew, reading, kept, same) = grow_buffer-IsReading size h in
    let (s, runs, reads) =
      read_loop_lem fuel size reading (omega (arith, ap (λ q. length (contents q)) same)) in
    (
      finish_read rcvid size s,
      io_read_lem fuel rcvid size block r t s (ground (arith, h.valid)) grew runs,
      finish_read-Answers rcvid size (record {
        reading = reads.reading;
        keeps = Keeps-trans kept reads.keeps;
        stops = reads.stops;
      }),
    )
