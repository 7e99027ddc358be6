-- ===== src/Resmgr/Write.antt =====
-- `io_write` of src/resmgr.c: the bytes that a client writes go out as messages of eight.
pub mod Frames
mod Tests
use dev_can_linux.Base.{
  ℕ, zero, suc, ◌+◌, ◌-◌, ◌*◌, ◌/◌, ◌%◌, Bool, true, false, Option, none, some, List, [], ◌∷◌,
  length, span, replicate, ltb, leb, ◌==◌, if◌then◌else◌, Status, eok, eio, enosys,
}
use dev_can_linux.Queue.{CanMsg, Queue, enqueue}
use dev_can_linux.Resmgr.{ChannelType, rx_channel, tx_channel, Resmgr}
use dev_can_linux.Resmgr.Read.{put_bytes}

-- `struct can_msg canmsg = { .mid = …, .ext = { .is_extended_mid = … } }`
unfoldable pub blank : Resmgr → CanMsg
blank r = record {
  mid = r.mid;
  timestamp = 0;
  is_extended_mid = r.is_extended_mid;
  is_remote_frame = false;
  len = 0;
  dat = replicate 8 0;
}

-- The i-th message, written over the one before it. `len_values` is how many values the member `len` of
-- `struct can_msg` has, which QNX declares: what is assigned to it wraps there.
unfoldable pub fill_message : (len_values nbytes i : ℕ) (buf : List ℕ) → CanMsg → CanMsg
fill_message len_values nbytes i buf m =
    let left = (nbytes - 8 * i) % len_values in
    let len = if ltb 8 left then 8 else left in
    record m { len = len; dat = put_bytes m.dat 0 (span buf (8 * i) len) }

-- `for (i = 0; i < n; ++i)` from `i` on, with `todo` rounds to go.
unfoldable pub write_loop : (len_values todo i nbytes : ℕ) (buf : List ℕ) → CanMsg → Queue → Queue
write_loop len_values zero i nbytes buf m q = q
write_loop len_values (suc todo) i nbytes buf m q =
    let filled = fill_message len_values nbytes i buf m in
    write_loop len_values todo (i + 1) nbytes buf filled (enqueue q filled).queue

-- `msg->i.nbytes/8 + (msg->i.nbytes%8 ? 1 : 0)`
unfoldable pub rounds : ℕ → ℕ
rounds nbytes = nbytes / 8 + (if nbytes % 8 == 0 then 0 else 1)

pub data Written : Type 0 where
  error : Status → Written
  written : ℕ → Written

-- `io_write`. `arrived` says whether the message holds all of the bytes; where it does not, they
-- are read into a buffer that `malloc` makes unless it fails, which is not tested for: `none` is
-- the write through NULL. The transmit queue is that of the device's session.
unfoldable pub io_write :
    (len_values : ℕ) (verified : Status) (plain arrived allocated : Bool)
    → Resmgr
    → (nbytes : ℕ) (buf : List ℕ) → Queue
    → Option (Written × Queue)
io_write len_values eok true arrived allocated r nbytes buf q = elim r.channel_type [
  | rx_channel ↦ some (error eio, q)
  | tx_channel ↦
      let out =
        some (written nbytes, write_loop len_values (rounds nbytes) 0 nbytes buf (blank r) q) in
      if arrived then out else if allocated then out else none
]
io_write len_values eok false arrived allocated r nbytes buf q = some (error enosys, q)
io_write len_values status plain arrived allocated r nbytes buf q = some (error status, q)
