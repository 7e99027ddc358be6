-- ===== src/Resmgr/Ocb/Tests.antt =====
-- A receive channel with two clients that wait.
use dev_can_linux.Base.{◌≡◌, refl, true, false, some, none, [], ◌∷◌, arith, eok}
use dev_can_linux.Resmgr.{rx_channel}
use dev_can_linux.Resmgr.Read.{remove_client}
use dev_can_linux.Resmgr.Ocb.{
  Ocb, OcbCalls, testing, exited, faulted, loop_test, pick_client, client_leaves, can_ocb_calloc,
  rx_loop, client_blocks, close_queue,
}
use dev_can_linux.Resmgr.Ocb.Awake.{here, next, own, block, close, Awake}
use dev_can_linux.Resmgr.Ocb.Wakes.{Heard, Reach-Awake}
use dev_can_linux.Resmgr.Ocb.Served.{run, served_rounds, run-exited, run-drains}

abbrev calls : OcbCalls
calls = record { memory = true; session = 70; buffer = true; mutex_rc = eok; cond_rc = eok }

abbrev fresh : Ocb
fresh = record {
  channel_type = rx_channel;
  shutdown = false;
  session = 70;
  has_queue = true;
  blocked_clients = [];
  signals = 0;
  read_buffer = true;
  read_size = 4096;
  nbytes = 0;
  offset = 0;
  thread = testing;
  sent = [];
}

calloc_rx : can_ocb_calloc calls rx_channel false ≡ (some fresh, none)
unfolding can_ocb_calloc
calloc_rx = refl

abbrev two_clients : Ocb
two_clients = record fresh { blocked_clients = 4 ∷ 6 ∷ [] }

-- The thread waits, a client blocks, and the block is closed.
Reach-Awake_example :
    Heard (close_queue (client_blocks 4 (rx_loop false false fresh)))
    × (Unit {0} → Awake (close_queue (client_blocks 4 (rx_loop false false fresh))))
Reach-Awake_example =
    Reach-Awake tt (next (next (next here (own fresh false false)) (block _ 4)) (close _))

-- Behind the loop test of a block with one client, another handler answers it: the thread reads
-- through NULL.
null_read :
    let one = record fresh { blocked_clients = 4 ∷ [] } in
    let tested = rx_loop true false (rx_loop true false one) in
    (rx_loop true false (client_leaves 4 tested)).thread ≡ faulted
unfolding rx_loop loop_test pick_client client_leaves remove_client
null_read = refl

run-exited_example :
    (run ((true, false) ∷ (true, false) ∷ (true, false) ∷ []) (close_queue two_clients)).thread
    ≡ exited
unfolding close_queue
run-exited_example =
    run-exited (close_queue two_clients) (true, false) (true, false) (true, false) (λ e. cc) tt refl

run-drains_example :
    run (served_rounds 2 true) two_clients
    ≡ record two_clients { blocked_clients = []; sent = 4 ∷ 6 ∷ [] }
run-drains_example =
    run-drains (4 ∷ 6 ∷ []) two_clients refl refl refl refl ((omega arith, tt), (tt, tt))
