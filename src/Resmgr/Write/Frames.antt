-- ===== src/Resmgr/Write/Frames.antt =====
-- The messages that a write makes.
use dev_can_linux.Base.{
  inl, inr, lt_or_eq, ℕ, zero, suc, ◌+◌, ◌-◌, ◌*◌, ◌/◌, ◌≤◌, ◌<◌, ◌≡◌, refl, ap, ap₂, ◌∙◌, sym,
  Bool, true, false, some, List, [], ◌∷◌, ◌++◌, arith, length, span, span_none, span-append,
  length-span, replicate, eok, append-nil, append_assoc, length-append, ◌%◌,
}
use native.Mathlib.Nat.{mod-eq_of_lt}
use dev_can_linux.Queue.{CanMsg, Queue, enqueue}
use dev_can_linux.Queue.Fifo.{contents}
use dev_can_linux.Queue.Invariant.{IsValid}
use dev_can_linux.Queue.Room.{enqueue-room}
use dev_can_linux.Queue.Ready.{enqueue-down}
use dev_can_linux.Resmgr.{tx_channel, Resmgr}
use dev_can_linux.Resmgr.Read.Stream.{payload, stream, AllWhole, length-put_bytes, span-put_bytes}
use dev_can_linux.Resmgr.Write.{blank, fill_message, write_loop, rounds, written, io_write}

-- Messages enqueued one after the other.
unfoldable pub enqueue_all : List CanMsg → Queue → Queue
enqueue_all [] q = q
enqueue_all (m ∷ ms) q = enqueue_all ms (enqueue q m).queue

-- The messages carry the identifier and the format of the channel, and are no remote frames.
abbrev pub AllOf : Resmgr → List CanMsg → Type 0
AllOf r [] = Unit {0}
AllOf r (m ∷ ms) =
    ((m.mid ≡ r.mid) × (m.is_extended_mid ≡ r.is_extended_mid) × (m.is_remote_frame ≡ false))
    × AllOf r ms

-- The messages of the rounds from `i` on carry the bytes from `8 * i` on.
pub record Carries (r : Resmgr) (todo i nbytes : ℕ) (buf : List ℕ) (ms : List CanMsg) : Type 0 where
  pub whole : AllWhole ms
  pub of_channel : AllOf r ms
  pub bytes : stream ms ≡ span buf (8 * i) (nbytes - 8 * i)
  pub number : length ms ≡ todo

abbrev IsBlank : Resmgr → CanMsg → Type 0
IsBlank r m =
    (m.mid ≡ r.mid)
    × (m.is_extended_mid ≡ r.is_extended_mid)
    × (m.is_remote_frame ≡ false)
    × (length m.dat ≡ 8)

rounds_lem : (n : ℕ) → rounds n ≡ (n + 7) / 8
unfolding rounds
rounds_lem n = ground arith

module _ (len_values : ℕ) (r : Resmgr) (nbytes : ℕ) (buf : List ℕ) (h : nbytes ≤ length buf)
    (fits : nbytes < len_values) where
  -- What is left fits into `len`.
  left_fits : (i : ℕ) → (nbytes - 8 * i) % len_values ≡ nbytes - 8 * i
  left_fits i = mod-eq_of_lt (omega (arith, fits))

  fill_message-IsBlank :
      (i : ℕ) (m : CanMsg) → IsBlank r m → IsBlank r (fill_message len_values nbytes i buf m)
  unfolding fill_message
  fill_message-IsBlank i m (a, b, c, d) = (a, b, c, length-put_bytes m.dat 0 _ ∙ d)

  fill_message-len :
      (i : ℕ) (m : CanMsg)
      → let len = (fill_message len_values nbytes i buf m).len in
        (len ≤ 8) × (len ≤ nbytes - 8 * i) × (nbytes - 8 * i - len ≡ nbytes - 8 * (i + 1))
  unfolding fill_message
  fill_message-len i m = let e = left_fits i in ground (arith, e)

  payload-fill_message :
      (i : ℕ) (m : CanMsg)
      → length m.dat ≡ 8
      → 8 * i ≤ nbytes
      → let s = fill_message len_values nbytes i buf m in payload s ≡ span buf (8 * i) s.len
  unfolding fill_message
  payload-fill_message i m d n =
      let (l, f, _) = fill_message-len i m in
      let s = fill_message len_values nbytes i buf m in
      span-put_bytes m.dat 0 s.len (span buf (8 * i) s.len)
        (omega (arith, length-span buf (8 * i) s.len)) (omega arith)
      ∙ ap (λ xs. xs ++ span buf (8 * i) s.len) (span_none m.dat 0)

  -- Behind a message stand the bytes of the next round.
  next_bytes :
      (i len : ℕ)
      → len ≤ 8
      → (len < 8 → len ≡ nbytes - 8 * i)
      → span buf (8 * i + len) (nbytes - 8 * i - len)
        ≡ span buf (8 * (i + 1)) (nbytes - 8 * (i + 1))
  next_bytes i len l short = elim (lt_or_eq l) [
    | inl less ↦
        let e = short less in
        ap (span buf (8 * i + len)) (omega arith)
        ∙ span_none buf (8 * i + len)
        ∙ sym (ap (span buf (8 * (i + 1))) (omega arith) ∙ span_none buf (8 * (i + 1)))
    | inr eight ↦ ap₂ (span buf) (omega arith) (omega arith)
  ]

  fill_message-short :
      (i : ℕ) (m : CanMsg)
      → let len = (fill_message len_values nbytes i buf m).len in len < 8 → len ≡ nbytes - 8 * i
  unfolding fill_message
  fill_message-short i m = let e = left_fits i in ground (arith, e)

  -- The bytes of a round and those behind them are those from `8 * i` on.
  bytes_of_round :
      (i : ℕ) (m : CanMsg) (rest : List ℕ)
      → length m.dat ≡ 8
      → 8 * i ≤ nbytes
      → rest ≡ span buf (8 * (i + 1)) (nbytes - 8 * (i + 1))
      → payload (fill_message len_values nbytes i buf m) ++ rest ≡ span buf (8 * i) (nbytes - 8 * i)
  bytes_of_round i m rest d n e =
      let s = fill_message len_values nbytes i buf m in
      let (l, f, _) = fill_message-len i m in
      let behind = next_bytes i s.len l (fill_message-short i m) in
      let all : s.len + (nbytes - 8 * i - s.len) ≡ nbytes - 8 * i = omega arith in
      ap₂ (λ (xs ys : List ℕ). xs ++ ys) (payload-fill_message i m d n) (e ∙ sym behind)
      ∙ span-append buf (8 * i) s.len (nbytes - 8 * i - s.len)
      ∙ ap (span buf (8 * i)) all

  write_loop_lem :
      (todo i : ℕ) (m : CanMsg) (q : Queue)
      → IsBlank r m
      → (nbytes - 8 * i + 7) / 8 ≡ todo
      → (ms : List CanMsg) × (write_loop len_values todo i nbytes buf m q ≡ enqueue_all ms q)
        × Carries r todo i nbytes buf ms
  unfolding write_loop enqueue_all
  write_loop_lem zero i m q b e = (
    [],
    refl,
    record {
      whole = tt;
      of_channel = tt;
      bytes = sym (ap (span buf (8 * i)) (omega arith) ∙ span_none buf (8 * i));
      number = refl;
    },
  )
  write_loop_lem (suc todo) i m q b e =
      let s = fill_message len_values nbytes i buf m in
      let (_, _, _, d) = b in
      let (x, y, z, w) = fill_message-IsBlank i m b in
      let (l, f, left) = fill_message-len i m in
      let (ms, runs, c) =
        write_loop_lem todo (i + 1) s (enqueue q s).queue (x, y, z, w) (omega arith) in
      (
        s ∷ ms,
        runs,
        record {
          whole = ((l, w), c.whole);
          of_channel = ((x, y, z), c.of_channel);
          bytes = bytes_of_round i m (stream ms) d (omega arith) c.bytes;
          number = ap suc c.number;
        },
      )

write_loop-down :
    (len_values todo i nbytes : ℕ) (buf : List ℕ) (m : CanMsg) (q : Queue)
    → q.session_up ≡ false
    → write_loop len_values todo i nbytes buf m q ≡ q
unfolding write_loop
write_loop-down len_values zero i nbytes buf m q down = refl
write_loop-down len_values (suc todo) i nbytes buf m q down =
    let s = fill_message len_values nbytes i buf m in
    let kept = enqueue-down s q down in
    ap (write_loop len_values todo (i + 1) nbytes buf s) kept
    ∙ write_loop-down len_values todo (i + 1) nbytes buf s q down

io_write_lem :
    (len_values : ℕ) (arrived : Bool) (r : Resmgr) (nbytes : ℕ) (buf : List ℕ) (q : Queue)
    → r.channel_type ≡ tx_channel
    → io_write len_values eok true arrived true r nbytes buf q
      ≡ some (written nbytes, write_loop len_values (rounds nbytes) 0 nbytes buf (blank r) q)
unfolding io_write
io_write_lem len_values true r nbytes buf q c = rw c refl
io_write_lem len_values false r nbytes buf q c = rw c refl

blank-IsBlank : (r : Resmgr) → IsBlank r (blank r)
unfolding blank replicate
blank-IsBlank r = (refl, refl, refl, refl)

enqueue_all-append :
    (ms : List CanMsg) (q : Queue)
    → IsValid q
    → q.session_up ≡ true
    → length (contents q) + length ms < q.size
    → contents (enqueue_all ms q) ≡ contents q ++ ms
unfolding enqueue_all
enqueue_all-append [] q v up room = sym (append-nil (contents q))
enqueue_all-append (m ∷ ms) q v up room =
    let (holds, v', up', size) = enqueue-room m q v up (omega (arith, room)) in
    let more = ap length holds ∙ length-append (contents q) (m ∷ []) in
    enqueue_all-append ms (enqueue q m).queue v' up' (omega (arith, room, more, size))
    ∙ ap (λ xs. xs ++ ms) holds
    ∙ append_assoc (contents q) (m ∷ []) ms

io_write-enqueue_all :
    (len_values : ℕ) (arrived : Bool) (r : Resmgr) (nbytes : ℕ) (buf : List ℕ) (q : Queue)
    → r.channel_type ≡ tx_channel
    → nbytes ≤ length buf
    → nbytes < len_values
    → (ms : List CanMsg) × (io_write len_values eok true arrived true r nbytes buf q
        ≡ some (written nbytes, enqueue_all ms q))
      × Carries r ((nbytes + 7) / 8) 0 nbytes buf ms
io_write-enqueue_all len_values arrived r nbytes buf q c h fits =
    let (ms, runs, m) =
      write_loop_lem len_values r nbytes buf h fits (rounds nbytes) 0 (blank r) q (blank-IsBlank r)
        (omega (arith, rounds_lem nbytes)) in
    (
      ms,
      io_write_lem len_values arrived r nbytes buf q c ∙ ap (λ t. some (written nbytes, t)) runs,
      record {
        whole = m.whole;
        of_channel = m.of_channel;
        bytes = m.bytes;
        number = m.number ∙ rounds_lem nbytes;
      },
    )

-- `io_write` on the transmit channel, of a buffer that holds the bytes, as many as the member `len` of
-- a message can count, where the transmit queue is up and has slots for the messages and one more: the
-- client is told that all of the bytes are written, and they stand, in order, behind what the queue
-- held, in messages of at most eight, no more than are needed, with the identifier and the format of
-- the channel.
pub io_write-Carries :
    (len_values : ℕ) (arrived : Bool) (r : Resmgr) (nbytes : ℕ) (buf : List ℕ) (q : Queue)
    → r.channel_type ≡ tx_channel
    → nbytes ≤ length buf
    → nbytes < len_values
    → IsValid q
    → q.session_up ≡ true
    → length (contents q) + (nbytes + 7) / 8 < q.size
    → (ms : List CanMsg) × (t : Queue) × (io_write len_values eok true arrived true r nbytes buf q
        ≡ some (written nbytes, t))
      × (contents t ≡ contents q ++ ms)
      × Carries r ((nbytes + 7) / 8) 0 nbytes buf ms
io_write-Carries len_values arrived r nbytes buf q c h fits v up room =
    let (ms, runs, m) = io_write-enqueue_all len_values arrived r nbytes buf q c h fits in
    let number = m.number in
    (ms, enqueue_all ms q, runs, enqueue_all-append ms q v up (omega (arith, room, number)), m)

-- A client is told that all of its bytes are written also where the queue is down and takes none.
pub io_write-down :
    (len_values : ℕ) (arrived : Bool) (r : Resmgr) (nbytes : ℕ) (buf : List ℕ) (q : Queue)
    → r.channel_type ≡ tx_channel
    → q.session_up ≡ false
    → io_write len_values eok true arrived true r nbytes buf q ≡ some (written nbytes, q)
io_write-down len_values arrived r nbytes buf q c down =
    io_write_lem len_values arrived r nbytes buf q c
    ∙ ap (λ t. some (written nbytes, t))
        (write_loop-down len_values (rounds nbytes) 0 nbytes buf (blank r) q down)
