-- ===== src/Resmgr/Devctl.antt =====
-- `io_devctl` of src/resmgr.c: the commands by which a client sends and receives single messages,
-- reads statistics, and changes the settings of a channel and its device.
pub mod Frame
pub mod Settings
mod Tests
use dev_can_linux.Base.{
  ℕ, zero, suc, ◌+◌, Bool, true, false, Option, none, some, List, [], ◌∷◌, ◌++◌, ◌==◌,
  if◌then◌else◌, Status, errno, eio, enosys, eagain, enotsup,
}
use dev_can_linux.Base.Word.{u32}
use dev_can_linux.Queue.{
  CanMsg, Queue, Outcome, slot, null, retry, wait, fault, message_at, dequeue_noblock, enqueue,
}
use dev_can_linux.Timestamp.{UserTime, timestamp, set_timestamp}
use dev_can_linux.Resmgr.{ChannelType, rx_channel, tx_channel, Resmgr, Rx}
use dev_can_linux.Resmgr.Read.{remove_client}
use dev_can_linux.Resmgr.Timing.{Timing, Bittiming, UserDevSetup, create_user_dev_setup}

-- The counters of `struct net_device_stats` and `struct can_device_stats` that are reported.
pub record Counters : Type 0 where
  pub tx_packets : ℕ
  pub rx_packets : ℕ
  pub tx_dropped : ℕ
  pub rx_dropped : ℕ
  pub rx_errors : ℕ
  pub tx_errors : ℕ
  pub rx_crc_errors : ℕ
  pub rx_over_errors : ℕ
  pub arbitration_lost : ℕ
  pub error_warning : ℕ
  pub error_passive : ℕ
  pub bus_off : ℕ
  pub bus_error : ℕ
  pub restarts : ℕ

-- `struct can_devctl_stats` of QNX, with members of 32 bits.
pub record Stats : Type 0 where
  pub transmitted_frames : ℕ
  pub received_frames : ℕ
  pub missing_ack : ℕ
  pub total_frame_errors : ℕ
  pub stuff_errors : ℕ
  pub form_errors : ℕ
  pub dom_bit_recess_errors : ℕ
  pub recess_bit_dom_errors : ℕ
  pub parity_errors : ℕ
  pub crc_errors : ℕ
  pub hw_receive_overflows : ℕ
  pub sw_receive_q_full : ℕ
  pub error_warning_state_count : ℕ
  pub error_passive_state_count : ℕ
  pub bus_off_state_count : ℕ
  pub bus_idle_count : ℕ
  pub power_down_count : ℕ
  pub wake_up_count : ℕ
  pub rx_interrupts : ℕ
  pub tx_interrupts : ℕ
  pub total_interrupts : ℕ

-- CAN_DEVCTL_GET_STATS
unfoldable pub get_stats : Counters → Stats
get_stats c = record {
  transmitted_frames = u32 c.tx_packets;
  received_frames = u32 c.rx_packets;
  missing_ack = u32 c.tx_dropped;
  total_frame_errors = u32 (c.rx_errors + c.tx_errors);
  stuff_errors = u32 c.arbitration_lost;
  form_errors = 0;
  dom_bit_recess_errors = 0;
  recess_bit_dom_errors = 0;
  parity_errors = 0;
  crc_errors = u32 c.rx_crc_errors;
  hw_receive_overflows = u32 c.rx_over_errors;
  sw_receive_q_full = u32 c.rx_dropped;
  error_warning_state_count = u32 c.error_warning;
  error_passive_state_count = u32 c.error_passive;
  bus_off_state_count = u32 c.bus_off;
  bus_idle_count = u32 c.bus_error;
  power_down_count = u32 c.restarts;
  wake_up_count = u32 c.restarts;
  rx_interrupts = u32 c.rx_errors;
  tx_interrupts = u32 c.tx_errors;
  total_interrupts = u32 (c.rx_errors + c.tx_errors);
}

-- The device behind a channel: the counters, `struct can_priv` and the flag IFF_UP.
pub record CanDevice : Type 0 where
  pub counters : Counters
  pub bittiming : Bittiming
  pub clock_freq : ℕ
  pub listen_only : Bool
  pub is_up : Bool

-- `struct can_devctl_info`, without the text of the description and the members that are always
-- zero. The mode is CANDEV_MODE_RAW_FRAME.
pub record Info : Type 0 where
  pub bit_rate : ℕ
  pub bit_rate_prescaler : ℕ
  pub sync_jump_width : ℕ
  pub time_segment_1 : ℕ
  pub time_segment_2 : ℕ
  pub loopback_internal : Bool
  pub silent : Bool

-- CAN_DEVCTL_GET_INFO, with the option `-E`.
unfoldable pub get_info : (opt_e : Bool) → CanDevice → Info
get_info opt_e d = record {
  bit_rate = d.bittiming.bitrate;
  bit_rate_prescaler = d.bittiming.brp;
  sync_jump_width = d.bittiming.sjw;
  time_segment_1 = d.bittiming.phase_seg1;
  time_segment_2 = d.bittiming.phase_seg2;
  loopback_internal = opt_e;
  silent = d.listen_only;
}

-- What a devctl can reach: the open context block's resource manager and receive side, the
-- transmit queue and the device of the session, and the time that clients set.
pub record Reach : Type 0 where
  pub resmgr : Resmgr
  pub rx : Rx
  pub tx_queue : Queue
  pub device : CanDevice
  pub user_time : UserTime

-- The commands, with what the client passes in `data`.
pub data Command : Type 0 where
  set_latency_limit_ms : ℕ → Command
  get_mid : Command
  set_mid : ℕ → Command
  get_mfilter : Command
  set_mfilter : ℕ → Command
  get_prio : Command
  set_prio : ℕ → Command
  get_timestamp : Command
  set_timestamp_to : ℕ → Command
  read_canmsg_ext : Command
  write_canmsg_ext : CanMsg → Command
  get_error : Command
  debug_info : Command
  debug_info2 : ℕ → Command
  stats : Command
  info : Command
  set_timing : Timing → Command
  rx_frame_raw_noblock : Command
  rx_frame_raw_block : Command
  tx_frame_raw : CanMsg → Command
  unknown : ℕ → Command

-- What comes back in `data`, and what `io_devctl` returns.
pub data Output : Type 0 where
  nothing : Output
  word : ℕ → Output
  message : CanMsg → Output
  driver_errors : (drvr1 drvr2 drvr3 drvr4 : ℕ) → Output
  statistics : Stats → Output
  device_info : Info → Output

pub data Reply : Type 0 where
  failed : Status → Reply
  no_reply : Reply
  done : Output → Reply

-- The change of the blocked clients of an open context block.
unfoldable pub with_clients : (List ℕ → List ℕ) → Reach → Reach
with_clients f s = record s { rx = record s.rx { blocked_clients = f s.rx.blocked_clients } }

-- `store_blocked_client`
abbrev pub store_client : ℕ → List ℕ → List ℕ
store_client rcvid cs = cs ++ (rcvid ∷ [])

-- What is done with the message that `dequeue_noblock` has returned.
unfoldable pub frame_dequeued :
    (blocking : Bool) (rcvid : ℕ) → Outcome × Queue → Reach → Option (Reply × Reach)
frame_dequeued blocking rcvid (slot i, q) s = elim (message_at q i) [
  | none ↦ none
  | some m ↦ some (
    done (message m),
    with_clients (remove_client rcvid) (record s { rx = record s.rx { rx_queue = q } }),
  )
]
frame_dequeued blocking rcvid (null, q) s =
    let t = record s { rx = record s.rx { rx_queue = q } } in
    if blocking
    then some (no_reply, with_clients (store_client rcvid) t)
    else some (failed eagain, t)
frame_dequeued blocking rcvid (retry, q) s = none
frame_dequeued blocking rcvid (wait, q) s = none
frame_dequeued blocking rcvid (fault, q) s = none

-- CAN_DEVCTL_READ_CANMSG_EXT and CAN_DEVCTL_RX_FRAME_RAW_BLOCK, which do the same, and
-- CAN_DEVCTL_RX_FRAME_RAW_NOBLOCK.
unfoldable pub read_frame :
    (fuel : ℕ) (clock : ℕ → ℕ) (blocking : Bool) (rcvid : ℕ) → Reach → Option (Reply × Reach)
read_frame fuel clock blocking rcvid s = elim s.resmgr.channel_type [
  | tx_channel ↦ some (failed eio, s)
  | rx_channel ↦
      frame_dequeued blocking rcvid
        (dequeue_noblock fuel s.resmgr.latency_limit_ms clock s.rx.rx_queue) s
]

-- CAN_DEVCTL_WRITE_CANMSG_EXT and CAN_DEVCTL_TX_FRAME_RAW, which do the same.
unfoldable pub write_frame : CanMsg → Reach → Reply × Reach
write_frame m s = elim s.resmgr.channel_type [
  | rx_channel ↦ (failed eio, s)
  | tx_channel ↦ (done nothing, record s { tx_queue = (enqueue s.tx_queue m).queue })
]

-- The call of `changelink`, the function of the Linux drivers, with the negated error code that it
-- returns. IFF_UP is off during the call.
unfoldable pub change_link :
    (changelink : UserDevSetup → CanDevice → ℕ × CanDevice)
    → UserDevSetup
    → CanDevice
    → Reply × CanDevice
change_link changelink user d =
    let (err, e) = changelink user (record d { is_up = false }) in
    (if err == 0 then done nothing else failed (errno err), record e { is_up = true })

-- `if (!timing.ref_clock_freq)`
unfoldable pub asked_timing : Timing → CanDevice → Timing
asked_timing t d =
    if t.ref_clock_freq == 0 then record t { ref_clock_freq = d.bittiming.bitrate } else t

-- CAN_DEVCTL_SET_TIMING
unfoldable pub change_timing :
    (changelink : UserDevSetup → CanDevice → ℕ × CanDevice) (wrapped : ℕ)
    → Timing
    → CanDevice
    → Option (Reply × CanDevice)
change_timing changelink wrapped t d =
    elim (create_user_dev_setup wrapped (asked_timing t d) d.clock_freq) [
      | none ↦ none
      | some user ↦ some (change_link changelink user d)
    ]

-- What `io_devctl` has beside the state: the functions it calls, the clock, the option `-E`, and
-- the client that asks.
pub record Call : Type 0 where
  pub changelink : UserDevSetup → CanDevice → ℕ × CanDevice
  pub wrapped : ℕ
  pub clock : ℕ → ℕ
  pub fuel : ℕ
  pub opt_e : Bool
  pub rcvid : ℕ

abbrev with_device : Reach → Option (Reply × CanDevice) → Option (Reply × Reach)
with_device s none = none
with_device s (some (out, d)) = some (out, record s { device = d })

-- `io_devctl`, from the switch on: iofunc_devctl_default has left the command to it. `none` is a fault.
unfoldable pub io_devctl : Call → Command → Reach → Option (Reply × Reach)
io_devctl c (set_latency_limit_ms ms) s =
    some (done nothing, record s { resmgr = record s.resmgr { latency_limit_ms = ms } })
io_devctl c get_mid s = some (done (word s.resmgr.mid), s)
io_devctl c (set_mid x) s = some (done nothing, record s { resmgr = record s.resmgr { mid = x } })
io_devctl c get_mfilter s = some (done (word s.resmgr.mfilter), s)
io_devctl c (set_mfilter x) s =
    some (done nothing, record s { resmgr = record s.resmgr { mfilter = x } })
io_devctl c get_prio s = some (failed enotsup, s)
io_devctl c (set_prio x) s =
    some (failed enotsup, record s { resmgr = record s.resmgr { prio = x } })
io_devctl c get_timestamp s = some (done (word (timestamp s.user_time (c.clock 0))), s)
io_devctl c (set_timestamp_to ts) s =
    some (done nothing, record s { user_time = set_timestamp s.user_time ts (c.clock 0) })
io_devctl c read_canmsg_ext s = read_frame c.fuel c.clock true c.rcvid s
io_devctl c (write_canmsg_ext m) s = some (write_frame m s)
io_devctl c get_error s = some (done (driver_errors 0 0 0 0), s)
io_devctl c debug_info s = some (done nothing, s)
io_devctl c (debug_info2 x) s = some (done nothing, s)
io_devctl c stats s = some (done (statistics (get_stats s.device.counters)), s)
io_devctl c info s = some (done (device_info (get_info c.opt_e s.device)), s)
io_devctl c (set_timing t) s = with_device s (change_timing c.changelink c.wrapped t s.device)
io_devctl c rx_frame_raw_noblock s = read_frame c.fuel c.clock false c.rcvid s
io_devctl c rx_frame_raw_block s = read_frame c.fuel c.clock true c.rcvid s
io_devctl c (tx_frame_raw m) s = some (write_frame m s)
io_devctl c (unknown x) s = some (failed enosys, s)
