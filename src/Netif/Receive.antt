-- ===== src/Netif/Receive.antt =====
-- `netif_rx` frame by frame: which frames reach the clients, and what becomes of the others.
use dev_can_linux.Base.{
  ℕ, ◌+◌, ◌≤◌, ◌≡◌, refl, ap, ◌∙◌, subst, ◌*◌, ◌/◌, ◌%◌, ◌^◌, ◌==◌, take, if◌then◌else◌, List, ◌∷◌,
  Bool, true, false, not, ◌||◌, arith, length,
}
use dev_can_linux.Base.Word.{bit_at}
use dev_can_linux.Timestamp.{UserTime, timestamp}
use dev_can_linux.Queue.{CanMsg, enqueue}
use dev_can_linux.Netif.{
  CanFrame, Device, RxOptions, rx_error, rx_message, rx_mid, rx_extended, deliver, netif_rx, Client,
  accepts, broadcast, err_bit, rtr_bit, bus_off,
}
use dev_can_linux.Netif.Broadcast.{AllReady, AllServed, broadcast-AllServed, broadcast-le-length}

-- The message that QNX clients are to get for a frame: 29 bits of identifier in the extended format, and
-- 11 at bits 18 to 28 in the standard one; its length and at most eight bytes; the time, and
-- whether it came from the bus.
abbrev pub message_of : UserTime → (clock_us : ℕ) → (is_echo : Bool) → CanFrame → CanMsg
message_of u clock is_echo f = record {
  mid =
      if f.can_id / 2 ^ 31 % 2 == 1 then f.can_id % 2 ^ 29 else f.can_id % 2 ^ 29 * 2 ^ 18 % 2 ^ 32;
  timestamp = timestamp u clock;
  is_extended_mid = f.can_id / 2 ^ 31 % 2 == 1;
  is_remote_frame = not is_echo;
  len = f.len;
  dat = take 8 f.dat;
}

rx_message-message_of :
    (u : UserTime) (clock : ℕ) (is_echo : Bool) (f : CanFrame)
    → rx_message u clock is_echo f ≡ message_of u clock is_echo f
unfolding rx_message rx_mid rx_extended
rx_message-message_of u clock is_echo f = refl

module _ (restart_now : Device → Device) (mfilter : ℕ → ℕ) (o : RxOptions) (clock : ℕ)
    (f : CanFrame) (d : Device) where
  pub netif_rx-data :
      (is_echo : Bool)
      → bit_at f.can_id err_bit ≡ false
      → bit_at f.can_id rtr_bit ≡ false
      → (o.opt_e || not is_echo) ≡ true
      → netif_rx restart_now mfilter o clock is_echo f d
        ≡ (deliver mfilter (rx_message o.user_time clock is_echo f) d, not is_echo)
  unfolding netif_rx
  netif_rx-data is_echo no_err no_rtr heard = ground arith

  -- A data frame (neither ERR nor RTR) from the bus, or an echo under `-E`, where the queues of all
  -- clients are up and do not wrap onto their first message, reaches the clients of the device as
  -- a message: each whose filter lets it pass has it, the others are as they were. The statistics
  -- count at most one drop for each client, and the buffer is freed unless it is an echo.
  pub netif_rx-AllServed :
      (is_echo : Bool)
      → bit_at f.can_id err_bit ≡ false
      → bit_at f.can_id rtr_bit ≡ false
      → (o.opt_e || not is_echo) ≡ true
      → AllReady d.clients
      → let (r, freed) = netif_rx restart_now mfilter o clock is_echo f d in
        AllServed mfilter (message_of o.user_time clock is_echo f) d.clients r.clients
        × (d.rx_dropped ≤ r.rx_dropped)
        × (r.rx_dropped ≤ d.rx_dropped + length d.clients)
        × (freed ≡ not is_echo)
  unfolding deliver
  netif_rx-AllServed is_echo no_err no_rtr heard ready =
      let m = rx_message o.user_time clock is_echo f in
      rw (netif_rx-data is_echo no_err no_rtr heard) (
        subst (λ n. AllServed mfilter n d.clients (broadcast mfilter m d.clients).0)
            (rx_message-message_of o.user_time clock is_echo f)
            (broadcast-AllServed mfilter m d.clients ready),
        omega arith,
        omega (arith, broadcast-le-length mfilter m d.clients),
        refl,
      )

  -- An error frame reaches no client, even if it is also an RTR frame or an echo: `netif_rx` frees
  -- it, and leaves the delay of automatic restarts as it was, whether it restarts the controller
  -- or not. `can_restart_now` is taken to leave the clients alone.
  pub netif_rx-error :
      (is_echo : Bool)
      → bit_at f.can_id err_bit ≡ true
      → ((r : Device) → (restart_now r).clients ≡ r.clients)
      → let (r, freed) = netif_rx restart_now mfilter o clock is_echo f d in
        (r.clients ≡ d.clients) × (r.restart_ms ≡ d.restart_ms) × (freed ≡ true)
  unfolding netif_rx rx_error
  netif_rx-error is_echo err keeps =
      ground (arith, keeps (record d { restart_ms = 0; can_state = bus_off }))

-- A data frame from the bus, at a device with such a first client.
pub netif_rx-first :
    (restart_now : Device → Device) (mfilter : ℕ → ℕ) (o : RxOptions) (clock : ℕ) (f : CanFrame)
    (d : Device) (c : Client) (cs : List Client)
    → bit_at f.can_id err_bit ≡ false
    → bit_at f.can_id rtr_bit ≡ false
    → d.clients ≡ c ∷ cs
    → accepts (mfilter c.channel) (rx_message o.user_time clock false f) ≡ true
    → (rs : List Client) × ((netif_rx restart_now mfilter o clock false f d).0.clients
        ≡ record c { rx_queue = (enqueue c.rx_queue (rx_message o.user_time clock false f)).queue }
          ∷ rs)
unfolding deliver broadcast
netif_rx-first restart_now mfilter o clock f d c cs no_err no_rtr first yields =
    let m = rx_message o.user_time clock false f in
    let heard : (o.opt_e || true) ≡ true = ground arith in
    (
      (broadcast mfilter m cs).0,
      ap (λ r. r.0.clients)
            (netif_rx-data restart_now mfilter o clock f d false no_err no_rtr heard)
          ∙ ap (λ ks. (broadcast mfilter m ks).0) first
          ∙ rw yields refl,
    )
