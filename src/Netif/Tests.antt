-- ===== src/Netif/Tests.antt =====
-- The theorems on the network interface at small inputs, and runs of its functions.
use dev_can_linux.Base.{
  ℕ, zero, suc, ◌*◌, ◌^◌, ◌≤◌, ◌≡◌, refl, true, false, some, List, [], ◌∷◌, ◌++◌, arith, span,
  replicate,
}
use dev_can_linux.Queue.{CanMsg, Queue}
use dev_can_linux.Queue.Fifo.{contents}
use dev_can_linux.Timestamp.{UserTime}
use dev_can_linux.Netif.{
  CanFrame, error_warning, Client, Device, RxOptions, tx_can_id, tx_frame, copy_bytes, rx_mid,
  netif_rx, tx_round, tx_goes,
}
use dev_can_linux.Netif.Mid.{IsSendable, IsFrameOf}
use dev_can_linux.Netif.Broadcast.{AllReady, AllServed}
use dev_can_linux.Netif.Receive.{message_of, netif_rx-AllServed}
use dev_can_linux.Netif.Transmit.{IsSending, tx_round-sends, tx_round-AllServed}

-- the standard identifier 0x123, as QNX keeps it, with two bytes
abbrev msg : CanMsg
msg = record {
  mid = 0x123 * 2 ^ 18;
  timestamp = 0;
  is_extended_mid = false;
  is_remote_frame = false;
  len = 2;
  dat = 0x55 ∷ 0xaa ∷ [];
}

abbrev frame : CanFrame
frame = record { can_id = 0x123; len = 2; dat = 0x55 ∷ 0xaa ∷ 0 ∷ 0 ∷ 0 ∷ 0 ∷ 0 ∷ 0 ∷ [] }

abbrev extended : CanFrame
extended = record frame { can_id = 0x9f334455 }

abbrev clock_free : UserTime
clock_free = record { optt = false; user_timestamp = 0; user_timestamp_time = 0 }

tx_frame-runs : tx_frame msg ≡ some frame
unfolding tx_frame copy_bytes tx_can_id replicate
tx_frame-runs = refl

rx_mid-runs : (rx_mid frame ≡ 0x123 * 2 ^ 18) × (rx_mid extended ≡ 0x1f334455)
unfolding rx_mid
rx_mid-runs = (refl, refl)

abbrev queue_at : (begin end : ℕ) → Queue
queue_at b e = record {
  size = 3;
  slots = msg ∷ msg ∷ msg ∷ [];
  begin = b;
  end = e;
  cond = 0;
  session_up = true;
  dequeue_waiting = false;
  stopped = false;
  wake_pending = false;
  dropped_packet = true;
}

abbrev clients : List Client
clients =
    record { channel = 0; rx_queue = queue_at 0 1 }
    ∷ record { channel = 1; rx_queue = queue_at 2 1 }
    ∷ []

-- channel 0 takes all messages, channel 1 only those with no bit outside of 0xff
abbrev filters : ℕ → ℕ
filters zero = 0xffffffff
filters (suc n) = 0xff

abbrev device : (irq : ℕ) → Device
device n = record {
  irq = n;
  link_state = 5;
  can_state = error_warning;
  restart_ms = 50;
  rx_dropped = 0;
  clients = clients;
  tx_queue = queue_at 2 0;
  sent = [];
}

abbrev options : RxOptions
options = record { error_count = 100; opt_e = false; user_time = clock_free }

abbrev restart : Device → Device
restart d = record d { rx_dropped = 0; restart_ms = 7 }

clients-AllReady : AllReady clients
clients-AllReady = (
  record { valid = omega arith; up = refl; room = omega arith },
  (record { valid = omega arith; up = refl; room = omega arith }, tt),
)

netif_rx-AllServed_example :
    let (r, freed) = netif_rx restart filters options 0 false frame (device 5) in
    AllServed filters (message_of clock_free 0 false frame) clients r.clients
    × (0 ≤ r.rx_dropped)
    × (r.rx_dropped ≤ 2)
    × (freed ≡ true)
netif_rx-AllServed_example =
    netif_rx-AllServed restart filters options 0 frame (device 5) false refl refl refl
      clients-AllReady

sending : (n : ℕ) → IsSending (device n) msg []
unfolding contents span
sending n = record { valid = omega arith; up = refl; runs = refl; holds = refl }

msg-IsSendable : IsSendable msg
msg-IsSendable = record { mid_in = omega arith; len_in = omega arith; dat_in = omega arith }

tx_round-sends_example :
    let (next, r) = tx_round filters true 0 (device 5) in
    (f : CanFrame) × IsFrameOf msg f
    × (next ≡ tx_goes)
    × (r.sent ≡ [] ++ (f ∷ []))
    × (contents r.tx_queue ≡ [])
    × (r.clients ≡ clients)
tx_round-sends_example =
    tx_round-sends filters 0 (device 5) msg [] (omega arith) (sending 5) msg-IsSendable

tx_round-AllServed_example :
    let (next, r) = tx_round filters true 0 (device 0) in
    (next ≡ tx_goes)
    × AllServed filters msg clients r.clients
    × (contents r.tx_queue ≡ [])
    × (r.sent ≡ [])
tx_round-AllServed_example =
    tx_round-AllServed filters true 0 (device 0) msg [] refl (sending 0) clients-AllReady
