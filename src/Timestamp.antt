-- ===== src/Timestamp.antt =====
-- The message timestamps of src/include/timer.h, src/netif.c and src/resmgr.c: a 32-bit count of
-- milliseconds that a client can set or synchronise by CAN_DEVCTL_SET_TIMESTAMP.
pub mod Laws
mod Tests
use dev_can_linux.Base.{ℕ, ◌+◌, ◌-◌, ◌/◌, ◌%◌, ◌^◌, Bool, ◌==◌, if◌then◌else◌}
use dev_can_linux.Base.Word.{u32}

-- `user_timestamp`, `user_timestamp_time` and the option `-t`.
pub record UserTime : Type 0 where
  pub optt : Bool
  pub user_timestamp : ℕ
  pub user_timestamp_time : ℕ

-- The timestamp for a clock that reads `clock_us`. The sum is of 64 bits, and its low 32 are kept.
unfoldable pub timestamp : UserTime → (clock_us : ℕ) → ℕ
timestamp u clock =
    if u.optt
    then u.user_timestamp
    else if u.user_timestamp_time == 0
    then u32 (clock / 1000)
    else u32 ((u.user_timestamp + clock / 1000 + 2 ^ 64 - u.user_timestamp_time) % 2 ^ 64)

-- CAN_DEVCTL_SET_TIMESTAMP
unfoldable pub set_timestamp : UserTime → (ts clock_us : ℕ) → UserTime
set_timestamp u ts clock = record u {
  user_timestamp = ts;
  user_timestamp_time = u32 (clock / 1000);
}
