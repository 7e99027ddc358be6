-- ===== src/Timestamp/Tests.antt =====
-- The timestamp's theorems at concrete clocks.
use dev_can_linux.Base.{◌≡◌, refl, false, arith}
use dev_can_linux.Timestamp.{UserTime, timestamp, set_timestamp}
use dev_can_linux.Timestamp.Laws.{timestamp-set_timestamp}

abbrev unset : UserTime
unset = record { optt = false; user_timestamp = 0; user_timestamp_time = 0 }

-- set just below 2^32 at 3 s, read 5 ms later
timestamp-set_timestamp_example :
    timestamp (set_timestamp unset 0xffff_ffff 3_000_000) 3_005_000 ≡ 4
timestamp-set_timestamp_example =
    timestamp-set_timestamp unset 0xffff_ffff 3_000_000 3_005_000 refl (omega arith) (omega arith)
      (omega arith) (omega arith)
