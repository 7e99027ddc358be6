-- ===== src/Netif.antt =====
-- src/netif.c: frames of the Linux drivers to messages of QNX clients and back, the delivery of
-- a message to the clients of a device, and the restart on error frames.
pub mod Broadcast
pub mod Carrier
pub mod Mid
pub mod Receive
pub mod Transmit
mod Tests
use Prim.Native.Nat.{bit_and}
use dev_can_linux.Base.{
  ℕ, zero, suc, ◌+◌, ◌-◌, ◌*◌, ◌/◌, ◌%◌, ◌^◌, Bool, true, false, not, ◌&&◌, ◌||◌, Option, none,
  some, List, [], ◌∷◌, ◌++◌, length, get_elem?, set, take, replicate, ltb, leb, ◌==◌, if◌then◌else◌,
  Status,
}
use dev_can_linux.Base.Word.{u32, bit_at, low_bits, with_bit, without_bit}
use dev_can_linux.Queue.{
  CanMsg, Queue, enqueue, Outcome, slot, null, retry, wait, fault, message_at, dequeue,
  dequeue_check, queue_is_stopped, queue_wake_up, queue_stop,
}
use dev_can_linux.Timestamp.{UserTime, timestamp}

-- The flags of `can_id`: CAN_EFF_FLAG, CAN_RTR_FLAG and CAN_ERR_FLAG are bits 31, 30 and 29;
-- CAN_ERR_MASK is the 29 bits below.
abbrev pub eff_bit : ℕ
eff_bit = 31

abbrev pub rtr_bit : ℕ
rtr_bit = 30

abbrev pub err_bit : ℕ
err_bit = 29

-- `struct can_frame`
pub record CanFrame : Type 0 where
  pub can_id : ℕ
  pub len : ℕ
  pub dat : List ℕ

-- `can_id` of the frame that `netif_tx` sends for a message.
unfoldable pub tx_can_id : CanMsg → ℕ
tx_can_id m = if m.is_extended_mid then with_bit m.mid eff_bit else m.mid / 2 ^ 18

-- `for (i = 0; i < canmsg->len; ++i) cf->data[i] = canmsg->dat[i]` from `i` on, with `n` rounds
-- to go; `none` is an access outside of either array.
unfoldable pub copy_bytes : (n i : ℕ) (from to : List ℕ) → Option (List ℕ)
copy_bytes zero i from to = some to
copy_bytes (suc n) i from to =
    let rest = λ (b : ℕ). copy_bytes n (i + 1) from (set to i b) in
    if ltb i (length to) then elim (get_elem? from i) [ none ↦ none | some b ↦ rest b ] else none

-- The frame, filled in over the zeroed buffer of `alloc_can_skb`.
unfoldable pub tx_frame : CanMsg → Option CanFrame
tx_frame m = elim (copy_bytes m.len 0 m.dat (replicate 8 0)) [
  | none ↦ none
  | some d ↦ some (record { can_id = tx_can_id m; len = m.len; dat = d })
]

-- `mid` and `is_extended_mid` of the message that `netif_rx` makes of a frame.
unfoldable pub rx_extended : CanFrame → Bool
rx_extended f = bit_at f.can_id eff_bit

unfoldable pub rx_mid : CanFrame → ℕ
unfolding rx_extended
rx_mid f = if rx_extended f then low_bits f.can_id 29 else u32 (low_bits f.can_id 29 * 2 ^ 18)

-- The whole message. `is_echo` says that the frame is one of the driver's own.
unfoldable pub rx_message : UserTime → (clock_us : ℕ) → (is_echo : Bool) → CanFrame → CanMsg
unfolding rx_mid
rx_message u clock is_echo f = record {
  mid = rx_mid f;
  timestamp = timestamp u clock;
  is_extended_mid = rx_extended f;
  is_remote_frame = not is_echo;
  len = f.len;
  dat = take 8 f.dat;
}

-- `client_session_t`, as the delivery of messages uses it. `mfilter` points to a field of the
-- resource manager that the client has opened, which is read when a message is delivered:
-- `channel` names that resource manager.
pub record Client : Type 0 where
  pub channel : ℕ
  pub rx_queue : Queue

-- `(canmsg.mid & *it->mfilter) == canmsg.mid`
abbrev pub accepts : (mfilter : ℕ) → CanMsg → Bool
accepts mfilter m = bit_and m.mid mfilter == m.mid

-- The loop over the clients of a device, with the number of calls of `increment_dropped_packet`.
unfoldable pub broadcast : (mfilter : ℕ → ℕ) → CanMsg → List Client → List Client × ℕ
broadcast mfilter m [] = ([], 0)
broadcast mfilter m (c ∷ cs) =
    let (rest, dropped) = broadcast mfilter m cs in
    let sent = enqueue c.rx_queue m in
    if accepts (mfilter c.channel) m
    then (
      record c { rx_queue = sent.queue } ∷ rest,
      (if sent.reported then suc dropped else dropped),
    )
    else (c ∷ rest, dropped)

-- `enum can_state`
pub data CanState : Type 0 where
  error_active error_warning error_passive bus_off device_stopped sleeping : CanState

-- The parts of a device that netif.c reads and writes: `struct can_priv`, the state word and
-- statistics of `struct net_device`, and its session's clients. `sent` are the frames handed to
-- `ndo_start_xmit`, oldest first.
pub record Device : Type 0 where
  pub irq : ℕ
  pub link_state : ℕ
  pub can_state : CanState
  pub restart_ms : ℕ
  pub rx_dropped : ℕ
  pub clients : List Client
  pub tx_queue : Queue
  pub sent : List CanFrame

-- Does an error frame in this state ask for a restart, for the option `-R` with this count?
unfoldable pub restart_trigger : CanState → (error_count : ℕ) → Bool
restart_trigger error_active n = ltb n 96
restart_trigger error_warning n = ltb n 128
restart_trigger error_passive n = ltb n 256
restart_trigger bus_off n = leb 256 n
restart_trigger device_stopped n = true
restart_trigger sleeping n = true

-- `netif_rx` on an error frame. `restart_now` is `can_restart_now` of the Linux drivers.
unfoldable pub rx_error : (restart_now : Device → Device) (error_count : ℕ) → Device → Device
rx_error restart_now n d =
    if not (n == 0) && restart_trigger d.can_state n
    then record (restart_now (record d { restart_ms = 0; can_state = bus_off })) {
      restart_ms = d.restart_ms;
    }
    else d

-- The options that `netif_rx` reads, beside those of the timestamps: `-R` and `-E`.
pub record RxOptions : Type 0 where
  pub error_count : ℕ
  pub opt_e : Bool
  pub user_time : UserTime

unfoldable pub deliver : (mfilter : ℕ → ℕ) → CanMsg → Device → Device
deliver mfilter m d =
    let (cs, dropped) = broadcast mfilter m d.clients in
    record d { clients = cs; rx_dropped = d.rx_dropped + dropped }

-- `netif_rx`, and whether it frees the buffer.
unfoldable pub netif_rx :
    (restart_now : Device → Device) (mfilter : ℕ → ℕ)
    → RxOptions
    → (clock_us : ℕ) (is_echo : Bool) → CanFrame
    → Device
    → Device × Bool
netif_rx restart_now mfilter o clock is_echo f d =
    if bit_at f.can_id err_bit
    then (rx_error restart_now o.error_count d, true)
    else if bit_at f.can_id rtr_bit
    then (d, not is_echo)
    else if not o.opt_e && is_echo
    then (d, false)
    else (deliver mfilter (rx_message o.user_time clock is_echo f) d, not is_echo)

-- What the loop of `netif_tx` does with the message that `dequeue` has returned: a device with no
-- interrupt is a virtual one, whose messages go to its own clients. `allocated` says whether
-- `alloc_can_skb` gives a buffer; `tx_fault` is an access outside of an array.
pub data TxRound : Type 0 where
  tx_exit tx_waits tx_goes tx_fault : TxRound

unfoldable pub tx_message :
    (mfilter : ℕ → ℕ) (allocated : Bool) → CanMsg → Device → TxRound × Device
tx_message mfilter allocated m d =
    if d.irq == 0
    then (tx_goes, deliver mfilter m d)
    else if not allocated
    then (tx_exit, d)
    else elim (tx_frame m) [
      | none ↦ (tx_fault, d)
      | some f ↦ (tx_goes, record d { sent = d.sent ++ (f ∷ []) })
    ]

-- From what `dequeue` has done to the queue on.
unfoldable pub tx_dequeued :
    (mfilter : ℕ → ℕ) (allocated : Bool) → Outcome × Queue → Device → TxRound × Device
tx_dequeued mfilter allocated (slot i, q) d = elim (message_at q i) [
  | none ↦ (tx_fault, record d { tx_queue = q })
  | some m ↦ tx_message mfilter allocated m (record d { tx_queue = q })
]
tx_dequeued mfilter allocated (null, q) d = (tx_exit, record d { tx_queue = q })
tx_dequeued mfilter allocated (retry, q) d = (tx_goes, record d { tx_queue = q })
tx_dequeued mfilter allocated (wait, q) d = (tx_waits, record d { tx_queue = q })
tx_dequeued mfilter allocated (fault, q) d = (tx_fault, record d { tx_queue = q })

-- A round of the loop, and its rest after `dequeue` has waited. `netif_tx` sets no latency limit.
unfoldable pub tx_round :
    (mfilter : ℕ → ℕ) (allocated : Bool) (clock_us : ℕ) → Device → TxRound × Device
tx_round mfilter allocated clock d =
    if d.tx_queue.size == 0
    then (tx_exit, d)
    else tx_dequeued mfilter allocated (dequeue 0 clock d.tx_queue) d

unfoldable pub tx_woken :
    (mfilter : ℕ → ℕ) (allocated : Bool) (clock_us : ℕ) → Device → TxRound × Device
tx_woken mfilter allocated clock d =
    tx_dequeued mfilter allocated (dequeue_check 0 clock d.tx_queue) d

-- `netif_carrier_ok`, `netif_carrier_on` and `netif_carrier_off`: bit 2, __LINK_STATE_NOCARRIER.
unfoldable pub netif_carrier_ok : Device → Bool
netif_carrier_ok d = not (bit_at d.link_state 2)

unfoldable pub netif_carrier_on : Device → Device
netif_carrier_on d = record d { link_state = without_bit d.link_state 2 }

unfoldable pub netif_carrier_off : Device → Device
netif_carrier_off d = record d { link_state = with_bit d.link_state 2 }

unfoldable pub netif_queue_stopped : Device → Bool
netif_queue_stopped d = queue_is_stopped d.tx_queue

unfoldable pub netif_wake_queue : Device → Device
netif_wake_queue d = record d { tx_queue = queue_wake_up d.tx_queue }

unfoldable pub netif_stop_queue : Device → Device
netif_stop_queue d = record d { tx_queue = queue_stop d.tx_queue }
