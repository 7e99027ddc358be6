-- ===== src/Tools/Tests.antt =====
-- The message cansend -m0x123,0,0xAB01 on its way.
use dev_can_linux.Base.{◌≡◌, refl, true, false, none, some, [], ◌∷◌, replicate}
use dev_can_linux.Queue.{CanMsg, Queue, fresh_queue}
use dev_can_linux.Tools.{
  Opened, scan_byte, hex_digit, data_bytes, cansend_message, canread_round, before_zero,
}
use dev_can_linux.Timestamp.{timestamp}
use dev_can_linux.Netif.{Client, Device, RxOptions, error_active}
use dev_can_linux.Resmgr.{ChannelType, rx_channel}
use dev_can_linux.Resmgr.Devctl.{Reach, Call}

abbrev unopened : Opened
unopened = record { unit = 0; is_tx = false; mailbox = 0 }

-- An odd number of digits: the last byte is one digit.
odd_digits : data_bytes 2 (b'A' ∷ b'B' ∷ b'1' ∷ []) ≡ some (171 ∷ 1 ∷ [])
unfolding data_bytes scan_byte hex_digit
odd_digits = refl

-- Nine bytes are written beyond the array.
nine_bytes : cansend_message false 1 0 (replicate 18 b'1') ≡ none
unfolding cansend_message replicate
nine_bytes = refl

cut_at_zero : canread_round (some (b'a' ∷ 0 ∷ b'b' ∷ [])) ≡ some (b'a' ∷ [])
unfolding canread_round before_zero
cut_at_zero = refl

abbrev blank : CanMsg
blank = record {
  mid = 0;
  timestamp = 0;
  is_extended_mid = false;
  is_remote_frame = false;
  len = 0;
  dat = replicate 8 0;
}

abbrev idle : Queue
idle = fresh_queue 3 (blank ∷ blank ∷ blank ∷ [])

abbrev at_channel : ChannelType → Reach
at_channel type = record {
  resmgr = record {
    channel_type = type;
    is_extended_mid = false;
    latency_limit_ms = 0;
    mid = 0;
    mfilter = 0xffffffff;
    prio = 0;
    shutdown = false;
  };
  rx = record {
    read_buffer = none;
    read_size = 0;
    nbytes = 0;
    offset = 0;
    blocked_clients = [];
    rx_queue = idle;
  };
  tx_queue = idle;
  device = record {
    counters = record {
      tx_packets = 0;
      rx_packets = 0;
      tx_dropped = 0;
      rx_dropped = 0;
      rx_errors = 0;
      tx_errors = 0;
      rx_crc_errors = 0;
      rx_over_errors = 0;
      arbitration_lost = 0;
      error_warning = 0;
      error_passive = 0;
      bus_off = 0;
      bus_error = 0;
      restarts = 0;
    };
    bittiming = record {
      bitrate = 250000;
      sample_point = 0;
      tq = 250;
      prop_seg = 6;
      phase_seg1 = 7;
      phase_seg2 = 2;
      sjw = 1;
      brp = 4;
    };
    clock_freq = 16000000;
    listen_only = false;
    is_up = true;
  };
  user_time = record { optt = false; user_timestamp = 0; user_timestamp_time = 0 };
}

abbrev call : Call
call = record {
  changelink = λ u d. (0, d);
  wrapped = 0;
  clock = λ i. 0;
  fuel = 2;
  opt_e = false;
  rcvid = 9;
}

abbrev listener : Client
listener = record { channel = 0; rx_queue = idle }

abbrev device : Device
device = record {
  irq = 5;
  link_state = 0;
  can_state = error_active;
  restart_ms = 50;
  rx_dropped = 0;
  clients = listener ∷ [];
  tx_queue = idle;
  sent = [];
}

abbrev options : RxOptions
options = record { error_count = 0; opt_e = false; user_time = (at_channel rx_channel).user_time }
