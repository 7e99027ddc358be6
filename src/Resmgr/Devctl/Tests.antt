-- ===== src/Resmgr/Devctl/Tests.antt =====
-- Commands of a client on a channel with one message.
use dev_can_linux.Base.{ℕ, ◌≡◌, refl, true, false, none, some, [], ◌∷◌, arith, span, enosys, eio}
use dev_can_linux.Queue.{CanMsg, Queue}
use dev_can_linux.Queue.Fifo.{contents, count, pop_fresh}
use dev_can_linux.Resmgr.{rx_channel}
use dev_can_linux.Resmgr.Timing.{Timing, Bittiming, UserDevSetup}
use dev_can_linux.Resmgr.Devctl.{
  Reach, CanDevice, Call, Reply, failed, io_devctl, unknown, get_stats, read_frame, write_frame,
}
use dev_can_linux.Resmgr.Devctl.Frame.{Serves, read_frame-Serves}

abbrev one : CanMsg
one = record {
  mid = 5;
  timestamp = 0;
  is_extended_mid = true;
  is_remote_frame = false;
  len = 1;
  dat = 7 ∷ [];
}

abbrev queue : Queue
queue = record {
  size = 3;
  slots = one ∷ one ∷ one ∷ [];
  begin = 0;
  end = 1;
  cond = 0;
  session_up = true;
  dequeue_waiting = false;
  stopped = false;
  wake_pending = false;
  dropped_packet = true;
}

abbrev plain_timing : Bittiming
plain_timing = record {
  bitrate = 250000;
  sample_point = 0;
  tq = 250;
  prop_seg = 6;
  phase_seg1 = 7;
  phase_seg2 = 2;
  sjw = 1;
  brp = 4;
}

abbrev device : CanDevice
device = record {
  counters = record {
    tx_packets = 4294967297;
    rx_packets = 2;
    tx_dropped = 0;
    rx_dropped = 0;
    rx_errors = 1;
    tx_errors = 2;
    rx_crc_errors = 0;
    rx_over_errors = 0;
    arbitration_lost = 0;
    error_warning = 0;
    error_passive = 0;
    bus_off = 0;
    bus_error = 0;
    restarts = 3;
  };
  bittiming = plain_timing;
  clock_freq = 16000000;
  listen_only = false;
  is_up = true;
}

abbrev state : Reach
state = record {
  resmgr = record {
    channel_type = rx_channel;
    is_extended_mid = false;
    latency_limit_ms = 0;
    mid = 0;
    mfilter = 4294967295;
    prio = 0;
    shutdown = false;
  };
  rx = record {
    read_buffer = none;
    read_size = 0;
    nbytes = 0;
    offset = 0;
    blocked_clients = 9 ∷ [];
    rx_queue = queue;
  };
  tx_queue = queue;
  device = device;
  user_time = record { optt = false; user_timestamp = 0; user_timestamp_time = 0 };
}

abbrev refuse : UserDevSetup → CanDevice → ℕ × CanDevice
refuse u d = (16, d)

abbrev call : Call
call = record {
  changelink = refuse;
  wrapped = 0;
  clock = λ i. 0;
  fuel = 4;
  opt_e = false;
  rcvid = 9;
}

no_command : io_devctl call (unknown 77) state ≡ some (failed enosys, state)
unfolding io_devctl
no_command = refl

not_to_send : write_frame one state ≡ (failed eio, state)
unfolding write_frame
not_to_send = refl

-- The counters of 64 bits are cut to 32.
cut_counters :
    ((get_stats device.counters).transmitted_frames ≡ 1)
    × ((get_stats device.counters).total_interrupts ≡ 3)
unfolding get_stats
cut_counters = (refl, refl)

read_frame-Serves_example :
    let (fresh, left) = pop_fresh 0 (λ i. 0) (contents queue) in
    (out : Reply × Reach) × (read_frame 4 (λ i. 0) true 9 state ≡ some out)
    × Serves true 9 fresh left out
unfolding contents count span
read_frame-Serves_example =
    read_frame-Serves 4 (λ i. 0) true 9 state refl (omega arith) refl (omega arith)

abbrev marked : Reach
marked = record state { resmgr = record state.resmgr { mid = 3 } }

abbrev filtered : Reach
filtered = record state { resmgr = record state.resmgr { mid = 3; mfilter = 4 } }

abbrev same_rate : Timing
same_rate = record {
  ref_clock_freq = 0;
  bit_rate_prescaler = 0;
  sync_jump_width = 0;
  time_segment_1 = 0;
  time_segment_2 = 0;
}
