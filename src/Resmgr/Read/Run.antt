-- ===== src/Resmgr/Read/Run.antt =====
-- The loop of `io_read`.
use dev_can_linux.Base.{
  lt_or_eq, le_or_lt, List-cases, ℕ, zero, suc, ◌+◌, ◌-◌, ◌≤◌, ◌<◌, ◌≡◌, refl, ap, ◌∙◌, sym, subst,
  length-span, ◌⊎◌, inl, inr, true, none, some, List, [], ◌∷◌, ◌++◌, arith, length, span,
  span-append, drop, ltb, append_assoc,
}
use dev_can_linux.Queue.{CanMsg, advance}
use dev_can_linux.Queue.Fifo.{contents}
use dev_can_linux.Queue.Invariant.{advance-IsValid}
use dev_can_linux.Queue.Ready.{
  dequeue_noblock-one, session_up-advance, peek_noblock-null, peek_noblock-slot,
}
use dev_can_linux.Resmgr.{Rx}
use dev_can_linux.Resmgr.Read.{put_bytes, read_message, read_loop, peek}
use dev_can_linux.Resmgr.Read.Stream.{
  stream, filled, IsWhole, AllWhole, IsInFirst, length-put_bytes, span-put_bytes, drop-payload,
}
use dev_can_linux.Resmgr.Read.Loop.{
  IsReading, Keeps, all_message, part_message, peek-none, peek-some,
}

-- After the message at the head has been copied as far as asked.
abbrev after_part : ℕ → CanMsg → List ℕ → Rx → Rx
after_part k m buffer r = record r {
  read_buffer = some (put_bytes buffer r.nbytes (span m.dat r.offset k));
  nbytes = r.nbytes + k;
  offset = r.offset + k;
}

abbrev after_all : CanMsg → List ℕ → Rx → Rx
after_all m buffer r = record r {
  read_buffer = some (put_bytes buffer r.nbytes (span m.dat r.offset (m.len - r.offset)));
  nbytes = r.nbytes + (m.len - r.offset);
  offset = 0;
  rx_queue = advance r.rx_queue;
}

IsInFirst-zero : (ms : List CanMsg) → IsInFirst 0 ms
IsInFirst-zero [] = refl
IsInFirst-zero (m ∷ ms) = omega arith

module _ (size : ℕ) {r : Rx} (h : IsReading size r) (m : CanMsg) (rest : List CanMsg)
    (e : contents r.rx_queue ≡ m ∷ rest) where
  head-IsWhole : IsWhole m × AllWhole rest × (r.offset ≤ m.len)
  head-IsWhole =
      let w = subst AllWhole e h.whole in (w.0, w.1, subst (IsInFirst r.offset) e h.first)

  filled_lem :
      (k : ℕ)
      → r.offset + k ≤ m.len
      → r.nbytes + k ≤ size
      → span (put_bytes h.buffer r.nbytes (span m.dat r.offset k)) 0 (r.nbytes + k)
        ≡ filled r ++ span m.dat r.offset k
  filled_lem k l n =
      let (w, _, _) = head-IsWhole in
      span-put_bytes h.buffer r.nbytes (r.nbytes + k) (span m.dat r.offset k)
        (ap (◌+◌ r.nbytes) (length-span m.dat r.offset k (omega (arith, w))))
        (omega (arith, h.fits))
      ∙ ap (λ xs. xs ++ span m.dat r.offset k) (sym (rw h.held refl))

  part-Keeps :
      (k : ℕ) → r.offset + k ≤ m.len → r.nbytes + k ≤ size → Keeps r (after_part k m h.buffer r)
  part-Keeps k l n =
      let (w, _, o) = head-IsWhole in
      let before =
        ap (λ ms. drop r.offset (stream ms)) e ∙ drop-payload m r.offset (stream rest) w o in
      let after =
        ap (λ ms. drop (r.offset + k) (stream ms)) e
        ∙ drop-payload m (r.offset + k) (stream rest) w l in
      let pieces : span m.dat r.offset k ++ span m.dat (r.offset + k) (m.len - (r.offset + k))
          ≡ span m.dat r.offset (m.len - r.offset) =
        span-append m.dat r.offset k (m.len - (r.offset + k))
        ∙ ap (span m.dat r.offset) (omega arith) in
      record {
        bytes =
            rw (filled_lem k l n, after, before)
              (append_assoc (filled r) (span m.dat r.offset k) _
                ∙ ap (λ xs. filled r ++ xs)
                    (sym (append_assoc (span m.dat r.offset k) _ (stream rest))
                      ∙ ap (λ xs. xs ++ stream rest) pieces));
        clients = refl;
      }

  part-IsReading :
      (k : ℕ)
      → r.offset + k ≤ m.len
      → r.nbytes + k ≤ size
      → IsReading size (after_part k m h.buffer r)
  part-IsReading k l n = record {
    valid = h.valid;
    up = h.up;
    whole = h.whole;
    first = rw e l;
    buffer = put_bytes h.buffer r.nbytes (span m.dat r.offset k);
    held = refl;
    fits = rw (length-put_bytes h.buffer r.nbytes (span m.dat r.offset k)) h.fits;
    within = n;
    small = h.small;
  }

  module _ (left : contents (advance r.rx_queue) ≡ rest)
      (l : r.nbytes + (m.len - r.offset) ≤ size) where
    all-Keeps : Keeps r (after_all m h.buffer r)
    all-Keeps =
        let (w, _, o) = head-IsWhole in
        let before =
          ap (λ ms. drop r.offset (stream ms)) e ∙ drop-payload m r.offset (stream rest) w o in
        record {
          bytes =
              rw (filled_lem (m.len - r.offset) (omega (arith, o)) l, ap stream left, before)
                (append_assoc (filled r) (span m.dat r.offset (m.len - r.offset)) (stream rest));
          clients = refl;
        }

    all-IsReading : IsReading size (after_all m h.buffer r)
    all-IsReading =
        let (w, ws, o) = head-IsWhole in
        record {
          valid = advance-IsValid h.valid;
          up = session_up-advance r.rx_queue ∙ h.up;
          whole = rw left ws;
          first = IsInFirst-zero (contents (advance r.rx_queue));
          buffer = put_bytes h.buffer r.nbytes (span m.dat r.offset (m.len - r.offset));
          held = refl;
          fits =
              rw (length-put_bytes h.buffer r.nbytes (span m.dat r.offset (m.len - r.offset)))
                h.fits;
          within = l;
          small = h.small;
        }

-- Where the loop stops: nothing is lost, and the client has what it asks for or nothing is left.
pub record Reads (size : ℕ) (r s : Rx) : Type 0 where
  pub reading : IsReading size s
  pub keeps : Keeps r s
  pub stops : (s.nbytes ≡ size) ⊎ (contents s.rx_queue ≡ [])

module _ (fuel size : ℕ) (r : Rx) where
  loop-full : r.nbytes ≡ size → read_loop (suc fuel) size r ≡ some r
  unfolding read_loop
  loop-full e = ground arith

  loop-empty : r.nbytes < size → peek r.rx_queue ≡ some none → read_loop (suc fuel) size r ≡ some r
  unfolding read_loop
  loop-empty l e = ground arith

  loop-message :
      {m : CanMsg} {buffer : List ℕ} {s : Rx}
      → r.nbytes < size
      → peek r.rx_queue ≡ some (some m)
      → r.read_buffer ≡ some buffer
      → read_message size m buffer r ≡ some s
      → read_loop (suc fuel) size r ≡ read_loop fuel size s
  unfolding read_loop
  loop-message l e b c =
      let more : ltb r.nbytes size ≡ true = ground arith in rw (more, e) (rw b (rw c refl))

module _ (size : ℕ) {r : Rx} (h : IsReading size r) where
  peek-empty : contents r.rx_queue ≡ [] → peek r.rx_queue ≡ some none
  peek-empty e = peek-none r.rx_queue (peek_noblock-null h.valid e)

  peek-head :
      (m : CanMsg) (rest : List CanMsg)
      → contents r.rx_queue ≡ m ∷ rest
      → peek r.rx_queue ≡ some (some m)
  peek-head m rest e =
      let (_, ne, at, _) = dequeue_noblock-one (λ i. 0) m rest h.valid h.up e in
      peek-some r.rx_queue r.rx_queue.begin m (peek_noblock-slot h.valid h.up ne) at

pub Keeps-trans : {r s t : Rx} → Keeps r s → Keeps s t → Keeps r t
Keeps-trans h k = record { bytes = k.bytes ∙ h.bytes; clients = k.clients ∙ h.clients }

module _ (size : ℕ) {r : Rx} (h : IsReading size r) (m : CanMsg) (rest : List CanMsg)
    (e : contents r.rx_queue ≡ m ∷ rest) where
  -- A round that copies all of the message, and one that fills the buffer.
  all_round :
      (fuel : ℕ)
      → r.nbytes < size
      → r.nbytes + (m.len - r.offset) ≤ size
      → (read_loop (suc fuel) size r ≡ read_loop fuel size (after_all m h.buffer r))
        × IsReading size (after_all m h.buffer r)
        × Keeps r (after_all m h.buffer r)
        × (contents (advance r.rx_queue) ≡ rest)
  all_round fuel less l =
      let (w, _, o) = head-IsWhole size h m rest e in
      let (taken, _, _, left) = dequeue_noblock-one (λ i. 0) m rest h.valid h.up e in
      let copied : read_message size m h.buffer r ≡ some (after_all m h.buffer r) =
        all_message size m h.buffer r w o h.fits h.small l
        ∙ ap (λ t. some (record (after_all m h.buffer r) { rx_queue = t.1 })) taken in
      (
        loop-message fuel size r less (peek-head size h m rest e) h.held copied,
        all-IsReading size h m rest e left l,
        all-Keeps size h m rest e left l,
        left,
      )

  part_round :
      (fuel : ℕ)
      → r.nbytes < size
      → size < r.nbytes + (m.len - r.offset)
      → let s = after_part (size - r.nbytes) m h.buffer r in
        (read_loop (suc (suc fuel)) size r ≡ some s) × Reads size r s
  part_round fuel less l =
      let (w, _, o) = head-IsWhole size h m rest e in
      let copied = part_message size m h.buffer r w o h.fits h.small h.within l in
      let k = size - r.nbytes in
      (
        loop-message (suc fuel) size r less (peek-head size h m rest e) h.held copied
            ∙ loop-full fuel size (after_part k m h.buffer r) (omega arith),
        record {
          reading = part-IsReading size h m rest e k (omega arith) (omega arith);
          keeps = part-Keeps size h m rest e k (omega arith) (omega arith);
          stops = inl (omega arith);
        },
      )

stays-Reads :
    (size : ℕ) {r : Rx}
    → IsReading size r
    → (r.nbytes ≡ size) ⊎ (contents r.rx_queue ≡ [])
    → Reads size r r
stays-Reads size h s = record {
  reading = h;
  keeps = record { bytes = refl; clients = refl };
  stops = s;
}

-- With more rounds than messages and one, the loop stops without a fault.
pub read_loop_lem :
    (fuel size : ℕ) {r : Rx}
    → IsReading size r
    → length (contents r.rx_queue) + 1 < fuel
    → (s : Rx) × (read_loop fuel size r ≡ some s) × Reads size r s
read_loop_lem zero size h f = elim f [ ]
read_loop_lem (suc zero) size h f = absurd (omega arith)
read_loop_lem (suc (suc fuel)) size {r} h f = elim (lt_or_eq h.within) [
  | inr full ↦ (r, loop-full (suc fuel) size r full, stays-Reads size h (inl full))
  | inl less ↦ elim (List-cases (contents r.rx_queue)) [
    | inl nothing ↦ (
      r,
      loop-empty (suc fuel) size r less (peek-empty size h nothing),
      stays-Reads size h (inr nothing),
    )
    | inr (m, rest, e) ↦ elim (le_or_lt (r.nbytes + (m.len - r.offset)) size) [
      | inr l ↦
          let (runs, t) = part_round size h m rest e fuel less l in
          (after_part (size - r.nbytes) m h.buffer r, runs, t)
      | inl l ↦
          let (goes, g, k, left) = all_round size h m rest e (suc fuel) less l in
          let (s, runs, t) =
            read_loop_lem (suc fuel) size g (omega (arith, ap length left, ap length e)) in
          (
            s,
            goes ∙ runs,
            record { reading = t.reading; keeps = Keeps-trans k t.keeps; stops = t.stops },
          )
    ]
  ]
]
