-- ===== src/Tools/Hex.antt =====
-- The bytes that tools/cansend reads.
use dev_can_linux.Base.{
  ℕ, ◌+◌, ◌-◌, ◌*◌, ◌/◌, ◌%◌, ◌≤◌, ◌<◌, ◌≡◌, refl, ap, Bool, false, not, some, List, [], ◌∷◌, ◌++◌,
  arith, length, replicate, ltb, ◌==◌, if◌then◌else◌, ◌^◌,
}
use dev_can_linux.Base.Word.{u32}
use dev_can_linux.Queue.{CanMsg}
use dev_can_linux.Tools.{hex_digit, scan_byte, data_bytes, cansend_message}

-- Bytes in hexadecimal, two digits each.
abbrev pub hex_char : ℕ → ℕ
hex_char d = if ltb d 10 then b'0' + d else b'A' + (d - 10)

abbrev pub hex_of : List ℕ → List ℕ
hex_of [] = []
hex_of (b ∷ bs) = hex_char (b / 16) ∷ hex_char (b % 16) ∷ hex_of bs

abbrev pub AllBytes : List ℕ → Type 0
AllBytes [] = Unit {0}
AllBytes (b ∷ bs) = (b < 256) × AllBytes bs

hex_digit-hex_char : (d : ℕ) → d < 16 → hex_digit (hex_char d) ≡ some d
unfolding hex_digit
hex_digit-hex_char d h = ground arith

scan_byte-hex :
    (b : ℕ) (s : List ℕ) → b < 256 → scan_byte (hex_char (b / 16) ∷ hex_char (b % 16) ∷ s) ≡ some b
unfolding scan_byte
scan_byte-hex b s h =
    let high = hex_digit-hex_char (b / 16) (omega arith) in
    let low = hex_digit-hex_char (b % 16) (omega arith) in
    let whole : b / 16 * 16 + b % 16 ≡ b = omega arith in rw (scan_byte, high, low) (ap some whole)

pub data_bytes-hex_of : (bs : List ℕ) → AllBytes bs → data_bytes (length bs) (hex_of bs) ≡ some bs
unfolding data_bytes
data_bytes-hex_of [] h = refl
data_bytes-hex_of (b ∷ bs) (h, hs) =
    rw (data_bytes, scan_byte-hex b (hex_of bs) h) (rw (data_bytes-hex_of bs hs) refl)

length-hex_of : (bs : List ℕ) → length (hex_of bs) ≡ 2 * length bs
length-hex_of [] = omega arith
length-hex_of (b ∷ bs) = omega (arith, length-hex_of bs)

abbrev pub message_of : (junk : Bool) (mid mid_type : ℕ) → List ℕ → CanMsg
message_of junk mid mid_type bs = record {
  mid = if mid_type == 0 then u32 (mid * 2 ^ 18) else mid;
  timestamp = 0;
  is_extended_mid = not (mid_type == 0);
  is_remote_frame = junk;
  len = length bs;
  dat = bs ++ replicate (8 - length bs) 0;
}

-- For at most eight bytes in hexadecimal, cansend makes a message of just these bytes.
pub cansend_message-hex_of :
    (junk : Bool) (mid mid_type : ℕ) (bs : List ℕ)
    → AllBytes bs
    → length bs ≤ 8
    → cansend_message junk mid mid_type (hex_of bs) ≡ some (message_of junk mid mid_type bs)
unfolding cansend_message
cansend_message-hex_of junk mid mid_type bs h l =
    let n : length (hex_of bs) / 2 + length (hex_of bs) % 2 ≡ length bs =
      omega (arith, length-hex_of bs) in
    let fits : ltb 8 (length bs) ≡ false = ground arith in
    simp (cansend_message, n, fits, data_bytes-hex_of bs h)
