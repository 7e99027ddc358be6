-- ===== src/Tools/Commands.antt =====
-- The functions of dev-can-linux/commands.h. `devctl` of QNX hands the command to `io_devctl` of the
-- resource manager and returns its status; a client that gets no reply waits.
use dev_can_linux.Base.{ℕ, Option, none, some, Status, eok, efault}
use dev_can_linux.Queue.{CanMsg}
use dev_can_linux.Resmgr.Timing.{Timing}
use dev_can_linux.Resmgr.Devctl.{
  Reach, Call, Command, Output, Reply, nothing, failed, no_reply, done, rx_frame_raw_block,
  rx_frame_raw_noblock, tx_frame_raw, io_devctl,
}

pub data Answer : Type 0 where
  answered : Status → Output → Answer
  waits_for_reply : Answer

unfoldable pub answer : Reply → Answer
answer (failed e) = answered e nothing
answer no_reply = waits_for_reply
answer (done out) = answered eok out

unfoldable pub devctl : Call → Command → Reach → Option (Answer × Reach)
devctl c command s = elim (io_devctl c command s) [ none ↦ none | some (r, t) ↦ some (answer r, t) ]

-- `none` is NULL.
unfoldable pub write_frame_raw : Call → Option CanMsg → Reach → Option (Answer × Reach)
write_frame_raw c none s = some (answered efault nothing, s)
write_frame_raw c (some m) s = devctl c (tx_frame_raw m) s

unfoldable pub read_frame_raw_block : Call → Reach → Option (Answer × Reach)
read_frame_raw_block c s = devctl c rx_frame_raw_block s

unfoldable pub read_frame_raw_noblock : Call → Reach → Option (Answer × Reach)
read_frame_raw_noblock c s = devctl c rx_frame_raw_noblock s

unfoldable pub set_latency_limit_ms : Call → (value : ℕ) → Reach → Option (Answer × Reach)
set_latency_limit_ms c x s = devctl c (Command.set_latency_limit_ms x) s

-- The other members of `timing` are zero.
unfoldable pub set_bitrate : Call → (value : ℕ) → Reach → Option (Answer × Reach)
set_bitrate c x s =
    devctl c
      (Command.set_timing (record {
        ref_clock_freq = x;
        bit_rate_prescaler = 0;
        sync_jump_width = 0;
        time_segment_1 = 0;
        time_segment_2 = 0;
      }))
      s

unfoldable pub set_bittiming : Call → Timing → Reach → Option (Answer × Reach)
set_bittiming c t s = devctl c (Command.set_timing t) s

-- `get_info` and `get_stats`
unfoldable pub ask_info : Call → Reach → Option (Answer × Reach)
ask_info c s = devctl c Command.info s

unfoldable pub ask_stats : Call → Reach → Option (Answer × Reach)
ask_stats c s = devctl c Command.stats s

unfoldable pub set_mid : Call → (value : ℕ) → Reach → Option (Answer × Reach)
set_mid c x s = devctl c (Command.set_mid x) s

unfoldable pub get_mid : Call → Reach → Option (Answer × Reach)
get_mid c s = devctl c Command.get_mid s

unfoldable pub set_mfilter : Call → (value : ℕ) → Reach → Option (Answer × Reach)
set_mfilter c x s = devctl c (Command.set_mfilter x) s

unfoldable pub get_mfilter : Call → Reach → Option (Answer × Reach)
get_mfilter c s = devctl c Command.get_mfilter s
