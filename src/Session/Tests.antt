-- ===== src/Session/Tests.antt =====
-- Two devices, 7 and 8, with the sessions 10 and 20; the client 30 of the first one.
use dev_can_linux.Base.{ℕ, ◌≡◌, refl, false, none, some, [], ◌∷◌, arith, eok}
use dev_can_linux.Queue.{fresh_queue}
use dev_can_linux.Links.{Links, write}
use dev_can_linux.Links.Laws.{IsList}
use dev_can_linux.Session.{
  Sessions, clients_of, get_device_session, create_client_session, destroy_client_session,
  destroy_device_session,
}
use dev_can_linux.Session.Clients.{destroy_client_session-IsList}
use dev_can_linux.Session.Devices.{get_device_session_lem, destroy_device_session-blocks}

abbrev nowhere : ℕ → ℕ
nowhere i = 0

abbrev two_devices : Links
two_devices = record { root = 10; prev = write nowhere 20 10; next = write nowhere 10 20 }

abbrev heap : Sessions
heap = record {
  mutex = false;
  devices = two_devices;
  device = write (write nowhere 10 7) 20 8;
  root_client = write nowhere 10 30;
  client_prev = nowhere;
  client_next = nowhere;
  device_session = write nowhere 30 10;
  tx_queue = λ i. fresh_queue 0 [];
  rx_queue = λ i. fresh_queue 0 [];
}

devices-IsList : IsList two_devices (10 ∷ 20 ∷ [])
devices-IsList = record {
  distinct = ((omega arith, tt), (tt, tt));
  tail = 20;
  linked = (refl, omega arith, refl, (refl, omega arith, refl, (refl, refl)));
}

clients-IsList : IsList (clients_of 10 heap) (30 ∷ [])
clients-IsList = record {
  distinct = (tt, tt);
  tail = 30;
  linked = (refl, omega arith, refl, (refl, refl));
}

no_device : create_client_session 3 0 31 (eok, some (fresh_queue 3 [])) heap ≡ some (0, heap)
unfolding create_client_session
no_device = refl

get_device_session_lem_example : get_device_session 2 heap 8 ≡ some 20
get_device_session_lem_example =
    get_device_session_lem 2 8 20 heap (10 ∷ []) [] devices-IsList refl (omega arith, tt)
      (omega arith)

destroy_client_session-IsList_example :
    (t : Sessions) × (destroy_client_session 30 heap ≡ some t)
    × IsList (clients_of 10 t) []
    × (t.mutex ≡ false)
destroy_client_session-IsList_example =
    destroy_client_session-IsList 30 10 heap [] [] (omega arith) refl (omega arith) refl
      clients-IsList

destroy_device_session-blocks_example :
    (t : Sessions) × (destroy_device_session 10 heap ≡ some t)
    × IsList t.devices (20 ∷ [])
    × (create_client_session 3 8 31 (eok, some (fresh_queue 3 [])) t ≡ none)
destroy_device_session-blocks_example =
    destroy_device_session-blocks 10 3 8 20 31 (eok, some (fresh_queue 3 [])) heap [] (20 ∷ []) []
      [] (omega arith) refl devices-IsList (omega arith) (omega arith) refl refl tt (omega arith)
