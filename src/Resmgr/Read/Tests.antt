-- ===== src/Resmgr/Read/Tests.antt =====
-- Reads of two messages of three bytes.
use dev_can_linux.Base.{
  ℕ, ◌+◌, ◌≡◌, refl, true, false, none, some, [], ◌∷◌, arith, span, eok, eio, errno,
}
use dev_can_linux.Queue.{CanMsg, Queue}
use dev_can_linux.Queue.Fifo.{contents}
use dev_can_linux.Resmgr.{Rx, rx_channel, tx_channel}
use dev_can_linux.Resmgr.Read.{Reply, error, io_read}
use dev_can_linux.Resmgr.Read.Whole.{CanRead, unmade, Answers, io_read-Answers}

abbrev three : ℕ → CanMsg
three n = record {
  mid = n;
  timestamp = 0;
  is_extended_mid = true;
  is_remote_frame = false;
  len = 3;
  dat = n ∷ (n + 1) ∷ (n + 2) ∷ 0 ∷ 0 ∷ 0 ∷ 0 ∷ 0 ∷ [];
}

abbrev two_messages : Queue
two_messages = record {
  size = 4;
  slots = three 10 ∷ three 20 ∷ three 30 ∷ three 40 ∷ [];
  begin = 0;
  end = 2;
  cond = 0;
  session_up = true;
  dequeue_waiting = false;
  stopped = false;
  wake_pending = false;
  dropped_packet = true;
}

abbrev fresh : Rx
fresh = record {
  read_buffer = none;
  read_size = 0;
  nbytes = 0;
  offset = 0;
  blocked_clients = [];
  rx_queue = two_messages;
}

abbrev gathered : Rx
gathered = record fresh {
  read_buffer = some (1 ∷ 2 ∷ 3 ∷ 4 ∷ 5 ∷ 6 ∷ []);
  read_size = 6;
  nbytes = 5;
}

fresh-CanRead : CanRead 4 (some (0 ∷ 0 ∷ 0 ∷ 0 ∷ [])) fresh
unfolding contents span
fresh-CanRead = record {
  valid = record {
    roomy = omega arith;
    storage = refl;
    begin_in = omega arith;
    end_in = omega arith;
  };
  up = refl;
  whole = ((omega arith, refl), ((omega arith, refl), tt));
  first = omega arith;
  small = omega arith;
  memory = unmade (0 ∷ 0 ∷ 0 ∷ 0 ∷ []) refl refl refl refl;
}

wrong_channel : io_read 0 eok true tx_channel 7 4 none fresh ≡ some (error eio, fresh)
unfolding io_read
wrong_channel = refl

refused : io_read 0 (errno 13) false rx_channel 7 4 none fresh ≡ some (error (errno 13), fresh)
unfolding io_read
refused = refl

io_read-Answers_example :
    (out : Reply × Rx) × (io_read 4 eok true rx_channel 7 4 (some (0 ∷ 0 ∷ 0 ∷ 0 ∷ [])) fresh
      ≡ some out)
    × Answers 7 4 fresh out
unfolding contents span
io_read-Answers_example = io_read-Answers 4 7 4 fresh-CanRead (omega arith)
