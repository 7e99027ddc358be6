-- ===== src/Session.antt =====
-- src/session.c and src/include/session.h: the sessions of the devices and of their clients, in
-- doubly linked lists on the heap, and the mutex under which they are created and destroyed.
pub mod Clients
pub mod Devices
mod Tests
use dev_can_linux.Base.{
  ℕ, zero, suc, Bool, true, false, Option, none, some, ◌==◌, if◌then◌else◌, Status, eok,
}
use dev_can_linux.Queue.{Queue, destroy_begin, destroy_finish}
use dev_can_linux.Links.{Links, write, store, unlink}

-- The sessions on the heap. Pointers are numbers, NULL is zero, and `mutex` says whether
-- `device_session_create_mutex` is held. `devices` starts at `root_device_session`; each device
-- session has a `root_client_session`.
pub record Sessions : Type 0 where
  pub mutex : Bool
  pub devices : Links
  pub device : ℕ → ℕ
  pub root_client : ℕ → ℕ
  pub client_prev : ℕ → ℕ
  pub client_next : ℕ → ℕ
  pub device_session : ℕ → ℕ
  pub tx_queue : ℕ → Queue
  pub rx_queue : ℕ → Queue

-- The list of the clients of a device session, read and written back.
abbrev pub clients_of : ℕ → Sessions → Links
clients_of ds s = record { root = s.root_client ds; prev = s.client_prev; next = s.client_next }

abbrev pub with_clients_of : ℕ → Links → Sessions → Sessions
with_clients_of ds l s = record s {
  root_client = write s.root_client ds l.root;
  client_prev = l.prev;
  client_next = l.next;
}

-- `get_device_session`, in at most `fuel` rounds.
unfoldable pub find_from : (fuel : ℕ) → Sessions → (dev location : ℕ) → Option ℕ
find_from zero s dev location = none
find_from (suc fuel) s dev location =
    let rest = find_from fuel s dev (s.devices.next location) in
    if location == 0 then some 0 else if s.device location == dev then some location else rest

unfoldable pub get_device_session : (fuel : ℕ) → Sessions → (dev : ℕ) → Option ℕ
get_device_session fuel s dev = find_from fuel s dev s.devices.root

-- `destroy_queue`, once the consumer, which the shutdown wakes, has left.
unfoldable pub destroyed : Queue → Queue
destroyed q = elim (destroy_finish (record (destroy_begin q) { dequeue_waiting = false })) [
  | none ↦ q
  | some r ↦ r
]

-- `increment_dropped_packet` is installed in a queue.
abbrev pub counts_dropped : Queue → Queue
counts_dropped q = record q { dropped_packet = true }

-- The queue, where `create_queue` returns EOK.
abbrev pub made : Status × Option Queue → Option Queue
made (eok, q) = q
made (_, q) = none

-- `create_client_session`: the session (NULL where there is none) and the heap. `new` is what
-- `malloc` returns, and `created` what `create_queue` does. `none` is a write through NULL, or a lock
-- of a mutex that is held already, as that of `destroy_client_session` on the path of the error.
unfoldable pub create_client_session :
    (fuel dev new : ℕ) (created : Status × Option Queue) → Sessions → Option (ℕ × Sessions)
create_client_session fuel dev new created s =
    if dev == 0 then some (0, s) else elim (get_device_session fuel s dev) [
      | none ↦ none
      | some ds ↦
          if ds == 0
          then some (0, s)
          else if s.mutex
          then none
          else if new == 0
          then none
          else elim (store fuel new (clients_of ds s)) [
            | none ↦ none
            | some l ↦ elim (made created) [
              | some q ↦ some (
                new,
                record (with_clients_of ds l s) {
                  device_session = write s.device_session new ds;
                  rx_queue = write s.rx_queue new (counts_dropped q);
                },
              )
              | none ↦ none
            ]
          ]
    ]

-- `destroy_client_session`
unfoldable pub destroy_client_session : ℕ → Sessions → Option Sessions
destroy_client_session c s =
    let ds = s.device_session c in
    if c == 0
    then some s
    else if ds == 0
    then some s
    else if s.mutex
    then none
    else some (record (with_clients_of ds (unlink c (clients_of ds s)) s) {
      rx_queue = write s.rx_queue c (destroyed (s.rx_queue c));
    })

-- `create_device_session`. `sched_rc` is what `pthread_getschedparam` returns: where it fails,
-- the function returns without unlocking the mutex.
unfoldable pub create_device_session :
    (fuel dev new : ℕ) (created : Status × Option Queue) (sched_rc : Bool)
    → Sessions
    → Option (ℕ × Sessions)
create_device_session fuel dev new created sched_rc s =
    if s.mutex then none else if new == 0 then none else elim (store fuel new s.devices) [
      | none ↦ none
      | some l ↦ elim (made created) [
        | some q ↦
            let t = record s {
              devices = l;
              device = write s.device new dev;
              root_client = write s.root_client new 0;
              tx_queue = write s.tx_queue new (counts_dropped q);
            } in
            if sched_rc then some (new, t) else some (0, record t { mutex = true })
        | none ↦ none
      ]
    ]

-- `destroy_device_session`, which does not unlock the mutex.
unfoldable pub destroy_device_session : ℕ → Sessions → Option Sessions
destroy_device_session d s =
    if d == 0
    then some s
    else if s.mutex
    then none
    else some (record s {
      mutex = true;
      devices = unlink d s.devices;
      tx_queue = write s.tx_queue d (destroyed (s.tx_queue d));
    })
