-- ===== src/Resmgr/Ocb.antt =====
-- The open context blocks of src/resmgr.c: `can_ocb_calloc`, `can_ocb_free` and `io_close_ocb`, and
-- the thread `rx_loop` of a block, which wakes the clients that wait for messages.
pub mod Awake
pub mod Wakes
pub mod Served
mod Tests
use dev_can_linux.Base.{
  ℕ, zero, suc, ◌+◌, Bool, true, false, not, ◌&&◌, ◌||◌, Option, none, some, List, [], ◌∷◌, ◌++◌,
  map, ◌==◌, if◌then◌else◌, Status, eok, ebadf,
}
use dev_can_linux.Resmgr.{ChannelType, rx_channel, tx_channel}
use dev_can_linux.Resmgr.Read.{remove_client}

-- Where the thread stands: not created; before the test of its inner loop; in `pthread_cond_wait`
-- since `n` signals; at the call of `dequeue_peek`; before the second lock, behind a message; in
-- `MsgSend` for a client; at its end; or behind a read through NULL.
pub data Thread : Type 0 where
  no_thread testing : Thread
  waiting : (n : ℕ) → Thread
  peeking picking : Thread
  sending : (rcvid : ℕ) → Thread
  exited faulted : Thread

-- `struct can_ocb`, with the member `shutdown` of its resource manager. `has_queue` says that
-- `rx.queue` is not NULL, `signals` counts the signals of `rx.cond`, and `sent` is the `rcvid`s that
-- the thread has sent.
pub record Ocb : Type 0 where
  pub channel_type : ChannelType
  pub shutdown : Bool
  pub session : ℕ
  pub has_queue : Bool
  pub blocked_clients : List ℕ
  pub signals : ℕ
  pub read_buffer : Bool
  pub read_size : ℕ
  pub nbytes : ℕ
  pub offset : ℕ
  pub thread : Thread
  pub sent : List ℕ

-- What the calls of `can_ocb_calloc` come to: `calloc`, `create_client_session` (zero for NULL),
-- `malloc` of the buffer, and the two `pthread_..._init`.
pub record OcbCalls : Type 0 where
  pub memory : Bool
  pub session : ℕ
  pub buffer : Bool
  pub mutex_rc : Status
  pub cond_rc : Status

-- The size of the queue that is asked of `create_client_session`.
unfoldable pub rx_attr_size : ChannelType → ℕ
rx_attr_size rx_channel = 1024
rx_attr_size tx_channel = 0

-- The block and the session that has been destroyed again, if they are.
unfoldable pub can_ocb_calloc : OcbCalls → ChannelType → (shutdown : Bool) → Option Ocb × Option ℕ
can_ocb_calloc e type shutdown =
    let base : Ocb = record {
      channel_type = type;
      shutdown = shutdown;
      session = e.session;
      has_queue = false;
      blocked_clients = [];
      signals = 0;
      read_buffer = false;
      read_size = 0;
      nbytes = 0;
      offset = 0;
      thread = no_thread;
      sent = [];
    } in
    let started : Ocb = record base {
      has_queue = true;
      read_size = 4096;
      read_buffer = e.buffer;
      thread = testing;
    } in
    if not e.memory then (none, none) else elim type [
      | tx_channel ↦ (some base, none)
      | rx_channel ↦ elim e.mutex_rc [
        | eok ↦ elim e.cond_rc [ eok ↦ (some started, none) | _ ↦ (none, some e.session) ]
        | _ ↦ (none, some e.session)
      ]
    ]

-- The loop test, under the mutex.
unfoldable pub loop_test : Ocb → Ocb
loop_test s = elim s.blocked_clients [
  | [] ↦
      if not s.shutdown && s.has_queue
      then record s { thread = waiting s.signals }
      else record s { thread = exited }
  | _ ∷ _ ↦
      if s.shutdown || not s.has_queue
      then record s { thread = exited }
      else record s { thread = peeking }
]

-- `client->rcvid` for the first of the blocked clients.
unfoldable pub pick_client : Ocb → Ocb
pick_client s = elim s.blocked_clients [
  | [] ↦ record s { thread = faulted }
  | c ∷ _ ↦ record s { thread = sending c; sent = s.sent ++ (c ∷ []) }
]

-- A step of the thread. `got` says whether `dequeue_peek` returns a message, which it does only of
-- a queue that is there. `served` says whether the handler that `msg_again_callback` runs before
-- `MsgSend` returns has answered the client, and so removed it from the list.
unfoldable pub rx_loop : (got served : Bool) → Ocb → Ocb
rx_loop got served s = elim s.thread [
  | no_thread ↦ s
  | testing ↦ loop_test s
  | waiting n ↦ loop_test s
  | peeking ↦
      if got && s.has_queue then record s { thread = picking } else record s { thread = testing }
  | picking ↦ pick_client s
  | sending c ↦ record s {
    thread = testing;
    blocked_clients = if served then remove_client c s.blocked_clients else s.blocked_clients;
  }
  | exited ↦ s
  | faulted ↦ s
]

-- What other threads do. A handler that cannot answer a client stores it and signals;
-- `unregister_netdev` sets `shutdown`; `can_ocb_free` starts with setting the queue to NULL and a
-- signal.
unfoldable pub client_blocks : (rcvid : ℕ) → Ocb → Ocb
client_blocks c s = record s {
  blocked_clients = s.blocked_clients ++ (c ∷ []);
  signals = s.signals + 1;
}

-- A handler that answers a client removes it from the list, under the mutex; it is there where a client
-- with the same `rcvid` has blocked before.
unfoldable pub client_leaves : (rcvid : ℕ) → Ocb → Ocb
client_leaves c s = record s { blocked_clients = remove_client c s.blocked_clients }

unfoldable pub shut_down : Ocb → Ocb
shut_down s = record s { shutdown = true }

unfoldable pub close_queue : Ocb → Ocb
close_queue s = record s { has_queue = false; signals = s.signals + 1; session = 0 }

-- `can_ocb_free` once the thread of a receive channel has been joined: the replies MsgError with
-- their status, and what is left to be freed.
unfoldable pub free_clients : Ocb → List (ℕ × Status) × Ocb
free_clients s =
    let empty = record s { read_size = 0; read_buffer = false } in
    elim s.channel_type [
      | rx_channel ↦
          (map (λ c. (c, ebadf)) s.blocked_clients, record empty { blocked_clients = [] })
      | tx_channel ↦ ([], empty)
    ]

-- `io_close_ocb`, up to the default handler.
unfoldable pub io_close_ocb : Ocb → Ocb
io_close_ocb s = record s { nbytes = 0; offset = 0 }
