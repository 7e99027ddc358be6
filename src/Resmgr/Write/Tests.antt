-- ===== src/Resmgr/Write/Tests.antt =====
-- Writes of ten bytes.
use dev_can_linux.Base.{
  ℕ, ◌+◌, ◌/◌, ◌≡◌, refl, true, false, some, none, List, [], ◌∷◌, arith, eok, eio, replicate, ◌++◌,
  span,
}
use dev_can_linux.Queue.{CanMsg, Queue, fresh_queue}
use dev_can_linux.Queue.Fifo.{contents}
use dev_can_linux.Queue.Invariant.{IsValid}
use dev_can_linux.Resmgr.{Resmgr, tx_channel, rx_channel}
use dev_can_linux.Resmgr.Write.{error, written, io_write, rounds, blank, fill_message}
use dev_can_linux.Resmgr.Write.Frames.{Carries, io_write-Carries}

abbrev channel : Resmgr
channel = record {
  channel_type = tx_channel;
  is_extended_mid = true;
  latency_limit_ms = 0;
  mid = 291;
  mfilter = 4294967295;
  prio = 0;
  shutdown = false;
}

abbrev ten : List ℕ
ten = 1 ∷ 2 ∷ 3 ∷ 4 ∷ 5 ∷ 6 ∷ 7 ∷ 8 ∷ 9 ∷ 10 ∷ []

abbrev closed : Queue
closed = record {
  size = 0;
  slots = [];
  begin = 0;
  end = 0;
  cond = 0;
  session_up = false;
  dequeue_waiting = false;
  stopped = false;
  wake_pending = false;
  dropped_packet = false;
}

two_rounds : (rounds 10 ≡ 2) × (rounds 8 ≡ 1) × (rounds 0 ≡ 0)
unfolding rounds
two_rounds = (refl, refl, refl)

wrong_channel :
    io_write 256 eok true true true (record channel { channel_type = rx_channel }) 10 ten closed
    ≡ some (error eio, closed)
unfolding io_write
wrong_channel = refl

null_buffer : io_write 256 eok true false false channel 10 ten closed ≡ none
unfolding io_write
null_buffer = refl

abbrev open_queue : Queue
open_queue = fresh_queue 4 (replicate 4 (blank channel))

open_queue-IsValid : IsValid open_queue
unfolding fresh_queue replicate
open_queue-IsValid = record {
  roomy = omega arith;
  storage = refl;
  begin_in = omega arith;
  end_in = omega arith;
}

io_write-Carries_example :
    (ms : List CanMsg) × (t : Queue) × (io_write 256 eok true false true channel 10 ten open_queue
      ≡ some (written 10, t))
    × (contents t ≡ contents open_queue ++ ms)
    × Carries channel ((10 + 7) / 8) 0 10 ten ms
unfolding fresh_queue contents span replicate
io_write-Carries_example =
    io_write-Carries 256 false channel 10 ten open_queue refl (omega arith) (omega arith)
      open_queue-IsValid refl (omega arith)

-- Where the length of a message is a byte, the first of the 33 messages for 257 bytes has one byte.
first_of_257 : (fill_message 256 257 0 (replicate 257 7) (blank channel)).len ≡ 1
unfolding fill_message
first_of_257 = refl
