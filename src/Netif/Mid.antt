-- ===== src/Netif/Mid.antt =====
-- Message identifiers and data, from a QNX message to a Linux frame and back. QNX keeps a standard
-- 11-bit identifier in bits 18 to 28, Linux in bits 0 to 10.
use dev_can_linux.Base.{
  ℕ, zero, suc, ◌+◌, ◌*◌, ◌/◌, ◌^◌, ◌≤◌, ◌<◌, ◌≡◌, ◌≢◌, refl, ◌∙◌, inl, inr, Bool, true, false,
  Option, some, List, arith, length, get_elem?, get_elem?-some, get_elem?-set_self,
  get_elem?-set_ne, length-set, set, replicate, length-replicate, ltb, ◌==◌, if◌then◌else◌,
  Bool-cases,
}
use dev_can_linux.Base.Word.{bit_at}
use dev_can_linux.Queue.{CanMsg}
use dev_can_linux.Timestamp.{UserTime}
use dev_can_linux.Netif.{
  CanFrame, tx_can_id, tx_frame, copy_bytes, rx_extended, rx_mid, rx_message, rtr_bit, err_bit,
}

-- A message that a client may send: an identifier of 29 bits, and at most eight bytes, all there.
pub record IsSendable (m : CanMsg) : Type 0 where
  pub mid_in : m.mid < 2 ^ 29
  pub len_in : m.len ≤ 8
  pub dat_in : m.len ≤ length m.dat

-- The bytes from `i` to `i + n` are copied, and the others left.
record Copied (from to : List ℕ) (i n : ℕ) (r : Option (List ℕ)) : Type 0 where
  result : List ℕ
  runs : r ≡ some result
  len : length result ≡ length to
  gets :
      (j : ℕ)
      → get_elem? result j ≡ (
          if ltb j i
          then get_elem? to j
          else if ltb j (i + n)
          then get_elem? from j
          else get_elem? to j)

copy_bytes_step :
    (n i b : ℕ) (from to : List ℕ)
    → i < length to
    → get_elem? from i ≡ some b
    → copy_bytes (suc n) i from to ≡ copy_bytes n (i + 1) from (set to i b)
unfolding copy_bytes
copy_bytes_step n i b from to h e =
    let low : ltb i (length to) ≡ true = ground arith in rw low (rw (e, copy_bytes))

Copied-step :
    (n i b : ℕ) (from to : List ℕ) (r : Option (List ℕ))
    → i < length to
    → get_elem? from i ≡ some b
    → Copied from (set to i b) (i + 1) n r
    → Copied from to i (suc n) r
Copied-step n i b from to r h e c = record {
  result = c.result;
  runs = c.runs;
  len = c.len ∙ length-set to i b;
  gets = λ j. elim (Bool-cases (j == i)) [
    | inl same ↦ ground (arith, c.gets j, get_elem?-set_self to i b)
    | inr other ↦
        let ne : i ≢ j = ground arith in ground (arith, c.gets j, get_elem?-set_ne to b ne)
  ];
}

copy_bytes-Copied :
    (n i : ℕ) (from to : List ℕ)
    → i + n ≤ length from
    → i + n ≤ length to
    → Copied from to i n (copy_bytes n i from to)
unfolding copy_bytes
copy_bytes-Copied zero i from to hf ht = record {
  result = to;
  runs = refl;
  len = refl;
  gets = λ j. ground arith;
}
copy_bytes-Copied (suc n) i from to hf ht =
    let (b, e) = get_elem?-some from i (omega arith) in
    rw (copy_bytes_step n i b from to (omega arith) e) (
      Copied-step n i b from to _ (omega arith) e (
        copy_bytes-Copied n (i + 1) from (set to i b) (omega arith)
          (omega (arith, length-set to i b))))

-- The zeroed data of a new buffer.
abbrev pub zeros : ℕ → List ℕ
zeros n = replicate n 0

length-zeros : (n : ℕ) → length (zeros n) ≡ n
length-zeros n = length-replicate {A = ℕ} n 0

-- A sendable message becomes a frame with no RTR or ERR flag, from which a receiver reads the
-- message's format, its identifier (in the standard format bits 18 to 28 of it), its length and its
-- bytes; the bytes behind are zero.
pub tx_frame-sendable :
    (m : CanMsg)
    → IsSendable m
    → (f : CanFrame) × (tx_frame m ≡ some f)
      × (bit_at f.can_id rtr_bit ≡ false)
      × (bit_at f.can_id err_bit ≡ false)
      × (rx_extended f ≡ m.is_extended_mid)
      × (rx_mid f ≡ (if m.is_extended_mid then m.mid else m.mid / 2 ^ 18 * 2 ^ 18))
      × (f.len ≡ m.len)
      × (length f.dat ≡ 8)
      × ((j : ℕ)
          → get_elem? f.dat j ≡ (if ltb j m.len then get_elem? m.dat j else get_elem? (zeros 8) j))
unfolding tx_frame tx_can_id rx_extended rx_mid
tx_frame-sendable m ok =
    let c =
      copy_bytes-Copied m.len 0 m.dat (zeros 8) (omega (arith, ok.dat_in))
        (omega (arith, length-zeros 8, ok.len_in)) in
    (
      record { can_id = tx_can_id m; len = m.len; dat = c.result },
      rw (c.runs, tx_frame),
      ground arith,
      ground arith,
      ground arith,
      ground arith,
      refl,
      c.len ∙ length-zeros 8,
      λ j. ground (arith, c.gets j),
    )

-- The frame that the Linux drivers are to get for a message: EFF and 29 bits of identifier in the
-- extended format, and 11 in the standard one; its bytes, with zeros behind them.
pub record IsFrameOf (m : CanMsg) (f : CanFrame) : Type 0 where
  pub can_id : f.can_id ≡ (if m.is_extended_mid then m.mid + 2 ^ 31 else m.mid / 2 ^ 18)
  pub len : f.len ≡ m.len
  pub size : length f.dat ≡ 8
  pub bytes :
      (j : ℕ)
      → get_elem? f.dat j ≡ (if ltb j m.len then get_elem? m.dat j else get_elem? (zeros 8) j)

pub tx_frame-IsFrameOf :
    (m : CanMsg) → IsSendable m → (f : CanFrame) × (tx_frame m ≡ some f) × IsFrameOf m f
unfolding tx_frame tx_can_id
tx_frame-IsFrameOf m ok =
    let c =
      copy_bytes-Copied m.len 0 m.dat (zeros 8) (omega (arith, ok.dat_in))
        (omega (arith, length-zeros 8, ok.len_in)) in
    (
      record { can_id = tx_can_id m; len = m.len; dat = c.result },
      rw (c.runs, tx_frame),
      record {
        can_id = ground (arith, ok.mid_in);
        len = refl;
        size = c.len ∙ length-zeros 8;
        bytes = λ j. ground (arith, c.gets j);
      },
    )

-- The other way: a data frame (no RTR or ERR flag), in the standard format with an identifier of 11
-- bits, is received as a message that is sent with the same `can_id`.
pub tx_can_id-rx :
    (u : UserTime) (clock : ℕ) (echo : Bool) (f : CanFrame)
    → f.can_id < 2 ^ 32
    → bit_at f.can_id rtr_bit ≡ false
    → bit_at f.can_id err_bit ≡ false
    → (rx_extended f ≡ false → f.can_id < 2 ^ 11)
    → tx_can_id (rx_message u clock echo f) ≡ f.can_id
unfolding tx_can_id rx_message rx_mid rx_extended
tx_can_id-rx u clock echo f word no_rtr no_err short = ground arith
