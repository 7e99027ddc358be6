-- ===== src/Resmgr/Read.antt =====
-- `io_read` of src/resmgr.c: a client reads the bytes of the received messages as one stream.
pub mod Stream
pub mod Loop
pub mod Run
pub mod Whole
pub mod Overrun
mod Tests
use dev_can_linux.Base.{
  ℕ, zero, suc, ◌+◌, ◌-◌, ◌%◌, ◌^◌, ◌≤◌, Bool, true, false, not, ◌&&◌, ◌||◌, Option, none, some,
  List, [], ◌∷◌, ◌++◌, length, set, span, ltb, leb, ◌==◌, if◌then◌else◌, Status, eok, eio, enosys,
  enomem,
}
use dev_can_linux.Queue.{
  CanMsg, Queue, slot, null, retry, wait, fault, message_at, dequeue_peek_noblock, dequeue_noblock,
}
use dev_can_linux.Resmgr.{Rx, ChannelType, rx_channel, tx_channel}

-- `memcpy(buffer + i, bytes, …)`
unfoldable pub put_bytes : (buffer : List ℕ) (i : ℕ) (bytes : List ℕ) → List ℕ
put_bytes buffer i [] = buffer
put_bytes buffer i (b ∷ bs) = put_bytes (set buffer i b) (suc i) bs

-- `nbytes + len - offset` in `size_t`
abbrev pub end_of : (nbytes len offset : ℕ) → ℕ
end_of nbytes len offset = (nbytes + len + 2 ^ 64 - offset) % 2 ^ 64

-- Copy `n` bytes of the message from `offset` on behind the `nbytes` there; `none` is an access
-- outside of the message's data or of the buffer.
unfoldable pub copy_message : (n : ℕ) → CanMsg → List ℕ → Rx → Option Rx
copy_message n m buffer r =
    if leb (r.offset + n) (length m.dat) && leb (r.nbytes + n) (length buffer)
    then some (record r {
      read_buffer = some (put_bytes buffer r.nbytes (span m.dat r.offset n));
      nbytes = r.nbytes + n;
    })
    else none

-- The body of the loop, for the message that `dequeue_peek_noblock` shows, which is then dequeued:
-- without a latency limit that takes one round. `size` is
-- `_IO_READ_GET_NBYTES(msg)`.
unfoldable pub read_message : (size : ℕ) → CanMsg → List ℕ → Rx → Option Rx
read_message size m buffer r =
    if leb (end_of r.nbytes m.len r.offset) size
    then elim (copy_message ((m.len + 2 ^ 64 - r.offset) % 2 ^ 64) m buffer r) [
      | none ↦ none
      | some s ↦
          some (record s { offset = 0; rx_queue = (dequeue_noblock 1 0 (λ i. 0) s.rx_queue).1 })
    ]
    else elim (copy_message (size - r.nbytes) m buffer r) [
      | none ↦ none
      | some s ↦ some (record s { offset = r.offset + (size - r.nbytes) })
    ]

-- The message at the head of the queue, if there is one: `some none` where the peek gives NULL.
unfoldable pub peek : Queue → Option (Option CanMsg)
peek q = elim (dequeue_peek_noblock q) [
  | null ↦ some none
  | slot i ↦ elim (message_at q i) [ none ↦ none | some m ↦ some (some m) ]
  | retry ↦ none
  | wait ↦ none
  | fault ↦ none
]

-- `while (nbytes < size)`, in at most `fuel` rounds; `none` is a fault, or fuel that ran out.
unfoldable pub read_loop : (fuel size : ℕ) → Rx → Option Rx
read_loop zero size r = none
read_loop (suc fuel) size r =
    if ltb r.nbytes size
    then elim (peek r.rx_queue) [
      | none ↦ none
      | some none ↦ some r
      | some (some m) ↦ elim r.read_buffer [
        | none ↦ none
        | some buffer ↦ elim (read_message size m buffer r) [
          | none ↦ none
          | some s ↦ read_loop fuel size s
        ]
      ]
    ]
    else some r

-- What the client gets: an error, nothing yet, or bytes.
pub data Reply : Type 0 where
  error : Status → Reply
  no_reply : Reply
  reply : List ℕ → Reply

abbrev pub has : ℕ → List ℕ → Bool
has x [] = false
has x (y ∷ ys) = (x == y) || has x ys

-- `get_blocked_client` and `store_blocked_client` as `io_read` uses them, and
-- `remove_blocked_client`.
abbrev pub block_client : (rcvid : ℕ) → List ℕ → List ℕ
block_client rcvid cs = if has rcvid cs then cs else cs ++ (rcvid ∷ [])

unfoldable pub remove_client : (rcvid : ℕ) → List ℕ → List ℕ
remove_client rcvid [] = []
remove_client rcvid (c ∷ cs) =
    let rest = remove_client rcvid cs in if c == rcvid then rest else c ∷ rest

-- The reallocation of a buffer that is too small; `block` is what `malloc` returns.
unfoldable pub grow_buffer : (size : ℕ) (block : Option (List ℕ)) → Rx → Option Rx × Rx
grow_buffer size block r = elim r.read_buffer [
  | none ↦ fresh
  | some old ↦ if ltb r.read_size size then fresh else (some r, r)
]
  where
    fresh : Option Rx × Rx
    fresh = elim block [
      | none ↦ (none, record r { read_buffer = none; read_size = 0 })
      | some b ↦
          let s = record r { read_buffer = some b; read_size = r.read_size + size } in (some s, s)
    ]

-- The end of `io_read`, once the loop has stopped.
unfoldable pub finish_read : (rcvid size : ℕ) → Rx → Reply × Rx
finish_read rcvid size r =
    if ltb r.nbytes size
    then (no_reply, record r { blocked_clients = block_client rcvid r.blocked_clients })
    else (
      reply (elim r.read_buffer [ none ↦ [] | some b ↦ span b 0 r.nbytes ]),
      record r { blocked_clients = remove_client rcvid r.blocked_clients; nbytes = 0 },
    )

-- `io_read`. `verified` is what `iofunc_read_verify` returns, `plain` that the read is no `pread`.
-- The first component is `none` at a fault, or where the fuel runs out.
unfoldable pub io_read :
    (fuel : ℕ) (verified : Status) (plain : Bool) (channel : ChannelType)
    → (rcvid size : ℕ) (block : Option (List ℕ)) → Rx
    → Option (Reply × Rx)
io_read fuel eok true rx_channel rcvid size block r =
    if r.rx_queue.size == 0
    then some (reply [], r)
    else (let (grown, s) = grow_buffer size block r in
        elim grown [
          | none ↦ some (error enomem, s)
          | some t ↦ elim (read_loop fuel size t) [
            | none ↦ none
            | some u ↦ some (finish_read rcvid size u)
          ]
        ])
io_read fuel eok true tx_channel rcvid size block r = some (error eio, r)
io_read fuel eok false channel rcvid size block r = some (error enosys, r)
io_read fuel status plain channel rcvid size block r = some (error status, r)
