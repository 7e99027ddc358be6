-- ===== src/Resmgr/Read/Stream.antt =====
-- The bytes that wait for a reader, as one stream.
use dev_can_linux.Base.{
  ℕ, suc, ◌+◌, ◌-◌, ◌≤◌, ◌≡◌, refl, ap, ap₂, ◌∙◌, sym, none, some, List, [], ◌∷◌, ◌++◌, arith,
  length, set, span, span-set_end, length-set, length-span, drop, drop-span, drop-append_length,
  append-nil, append_assoc,
}
use dev_can_linux.Queue.{CanMsg}
use dev_can_linux.Queue.Fifo.{contents}
use dev_can_linux.Resmgr.{Rx}
use dev_can_linux.Resmgr.Read.{put_bytes}

-- The bytes of a message, and of the messages of a queue.
abbrev pub payload : CanMsg → List ℕ
payload m = span m.dat 0 m.len

abbrev pub stream : List CanMsg → List ℕ
stream [] = []
stream (m ∷ ms) = payload m ++ stream ms

-- What is received and not yet copied to the read buffer: the first message of the queue has been
-- copied up to `offset`.
abbrev pub pending : Rx → List ℕ
pending r = drop r.offset (stream (contents r.rx_queue))

-- What is in the buffer, from reads that could not be answered.
abbrev pub filled : Rx → List ℕ
filled r = elim r.read_buffer [ none ↦ [] | some b ↦ span b 0 r.nbytes ]

-- The bytes of each message are all in its data of eight bytes.
abbrev pub IsWhole : CanMsg → Type 0
IsWhole m = (m.len ≤ 8) × (length m.dat ≡ 8)

abbrev pub AllWhole : List CanMsg → Type 0
AllWhole [] = Unit {0}
AllWhole (m ∷ ms) = IsWhole m × AllWhole ms

-- `offset` lies in the first message.
abbrev pub IsInFirst : ℕ → List CanMsg → Type 0
IsInFirst o [] = o ≡ 0
IsInFirst o (m ∷ ms) = o ≤ m.len

pub length-put_bytes :
    (buffer : List ℕ) (i : ℕ) (bs : List ℕ) → length (put_bytes buffer i bs) ≡ length buffer
unfolding put_bytes
length-put_bytes buffer i [] = refl
length-put_bytes buffer i (b ∷ bs) =
    length-put_bytes (set buffer i b) (suc i) bs ∙ length-set buffer i b

-- Bytes copied behind the first `i` of a buffer.
pub span-put_bytes :
    (buffer : List ℕ) (i n : ℕ) (bs : List ℕ)
    → i + length bs ≡ n
    → n ≤ length buffer
    → span (put_bytes buffer i bs) 0 n ≡ span buffer 0 i ++ bs
unfolding put_bytes
span-put_bytes buffer i n [] e h =
    let all : i ≡ n = omega arith in
    ap (span buffer 0) (sym all) ∙ sym (append-nil (span buffer 0 i))
span-put_bytes buffer i n (b ∷ bs) e h =
    span-put_bytes (set buffer i b) (suc i) n bs (omega arith)
      (omega (arith, length-set buffer i b))
    ∙ ap (λ xs. xs ++ bs) (span-set_end buffer i 0 i b (omega arith) (omega arith))
    ∙ append_assoc (span buffer 0 i) (b ∷ []) bs

-- The rest of a message, and what is behind it.
pub drop-payload :
    (m : CanMsg) (o : ℕ) (rest : List ℕ)
    → IsWhole m
    → o ≤ m.len
    → drop o (payload m ++ rest) ≡ span m.dat o (m.len - o) ++ rest
drop-payload m o rest w h =
    drop-append_length (payload m) rest o (omega (arith, w, length-span m.dat 0 m.len))
    ∙ ap (λ xs. xs ++ rest)
        (drop-span m.dat 0 m.len o (omega (arith, w)) h ∙ ap₂ (span m.dat) (omega arith) refl)
