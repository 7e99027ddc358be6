-- ===== src/Tools.antt =====
-- The tools tools/cansend, tools/candump and tools/canread, and the functions of
-- dev-can-linux/commands.h by which clients send commands to the resource manager. Texts are lists
-- of character codes, as `getopt` and `sscanf` give them, less the final zero.
pub mod Commands
pub mod Hex
pub mod Sent
pub mod Path
pub mod Mailbox
mod Tests
use dev_can_linux.Base.{
  ℕ, zero, suc, ◌+◌, ◌-◌, ◌*◌, ◌/◌, ◌%◌, ◌^◌, Bool, true, false, not, ◌&&◌, Option, none, some,
  List, [], ◌∷◌, ◌++◌, take, drop, length, replicate, ltb, leb, ◌==◌, if◌then◌else◌,
}
use dev_can_linux.Base.Word.{u32}
use dev_can_linux.Queue.{CanMsg}

-- What a tool opens: /dev/can<unit>/tx<mailbox> or /dev/can<unit>/rx<mailbox>.
pub record Opened : Type 0 where
  pub unit : ℕ
  pub is_tx : Bool
  pub mailbox : ℕ

abbrev pub is_digit : ℕ → Bool
is_digit c = leb b'0' c && leb c b'9'

-- `sscanf` with "%d", of a number without a sign: `none` where there is no digit.
unfoldable pub scan_digits : (n : ℕ) → List ℕ → ℕ
scan_digits n [] = n
scan_digits n (c ∷ cs) =
    let rest = scan_digits (n * 10 + (c - b'0')) cs in if is_digit c then rest else n

unfoldable pub scan_int : List ℕ → Option ℕ
scan_int [] = none
scan_int (c ∷ cs) = if is_digit c then some (scan_digits (c - b'0') cs) else none

-- `strncmp(buffer, "tx", 2)` and `strncmp(buffer, "rx", 2)`
unfoldable pub channel_name : List ℕ → Option Bool
channel_name (a ∷ b ∷ _) =
    if (a == b't') && (b == b'x')
    then some true
    else if (a == b'r') && (b == b'x')
    then some false
    else none
channel_name _ = none

-- The option -u with the unit and the text behind the comma: `none` where the tool exits. With
-- `buffer[2] = 0` the text is cut behind two characters.
unfoldable pub open_option : (unit : ℕ) (text : List ℕ) → Opened → Option Opened
open_option unit text s =
    let buffer = take 2 text in
    elim (channel_name buffer) [
      | none ↦ none
      | some is_tx ↦ some (record {
        unit = unit;
        is_tx = is_tx;
        mailbox = elim (scan_int (drop 2 buffer)) [ none ↦ s.mailbox | some n ↦ n ];
      })
    ]

-- `sscanf` with "%2x" of hexadecimal digits: one digit or two, `none` where there is none.
unfoldable pub hex_digit : ℕ → Option ℕ
hex_digit c =
    if is_digit c
    then some (c - b'0')
    else if leb b'a' c && leb c b'f'
    then some (c - b'a' + 10)
    else if leb b'A' c && leb c b'F'
    then some (c - b'A' + 10)
    else none

unfoldable pub scan_byte : List ℕ → Option ℕ
scan_byte [] = none
scan_byte (c ∷ []) = hex_digit c
scan_byte (c ∷ d ∷ _) = elim (hex_digit c) [
  | none ↦ none
  | some h ↦ elim (hex_digit d) [ none ↦ some h | some l ↦ some (h * 16 + l) ]
]

-- The loop of cansend over the bytes, `n` of which are left: `none` where `k` is used uninitialised.
unfoldable pub data_bytes : (n : ℕ) → List ℕ → Option (List ℕ)
data_bytes zero s = some []
data_bytes (suc n) s = elim (scan_byte s) [
  | none ↦ none
  | some k ↦ elim (data_bytes n (drop 2 s)) [ none ↦ none | some ks ↦ some (k ∷ ks) ]
]

-- The message of cansend, for the parts of the option -m. `junk` is what stands in
-- `is_remote_frame`, which is not set; `none` is a fault, as where there are more than eight bytes.
unfoldable pub cansend_message : (junk : Bool) (mid mid_type : ℕ) (text : List ℕ) → Option CanMsg
cansend_message junk mid mid_type text =
    let n = length text / 2 + length text % 2 in
    if ltb 8 n then none else elim (data_bytes n text) [
      | none ↦ none
      | some ks ↦ some (record {
        mid = if mid_type == 0 then u32 (mid * 2 ^ 18) else mid;
        timestamp = 0;
        is_extended_mid = not (mid_type == 0);
        is_remote_frame = junk;
        len = n;
        dat = ks ++ replicate (8 - n) 0;
      })
    ]

-- What candump prints of a message.
pub record Shown : Type 0 where
  pub timestamp : ℕ
  pub is_extended : Bool
  pub id : ℕ
  pub len : ℕ
  pub dat : List ℕ

unfoldable pub candump_line : CanMsg → Shown
candump_line m = record {
  timestamp = m.timestamp;
  is_extended = m.is_extended_mid;
  id = if m.is_extended_mid then m.mid else m.mid / 2 ^ 18;
  len = m.len;
  dat = take 8 m.dat;
}

-- A round of canread, of what `read` gives: `none` where it fails and the tool exits; else the text
-- that is printed, which ends before the first zero byte.
unfoldable pub before_zero : List ℕ → List ℕ
before_zero [] = []
before_zero (c ∷ cs) = let rest = before_zero cs in if c == 0 then [] else c ∷ rest

unfoldable pub canread_round : Option (List ℕ) → Option (List ℕ)
canread_round none = none
canread_round (some bytes) = some (before_zero bytes)
