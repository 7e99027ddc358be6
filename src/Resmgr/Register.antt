-- ===== src/Resmgr/Register.antt =====
-- `register_netdev` and `unregister_netdev` of src/resmgr.c: what the options ask of a device, and
-- the resource managers of its channels.
pub mod Setup
pub mod Added
pub mod Dangling
pub mod Names
pub mod Named
mod Tests
use dev_can_linux.Base.{
  ℕ, zero, suc, ◌+◌, ◌%◌, Bool, true, false, not, ◌&&◌, ◌||◌, Option, none, some, List, [], ◌∷◌,
  ◌++◌, ◌==◌, if◌then◌else◌,
}
use dev_can_linux.Links.{write}
use dev_can_linux.Options.{Options}
use dev_can_linux.Options.Configs.{
  BitrateConfig, ChannelConfig, config_of, default_num_rx_channels, default_num_tx_channels,
}
use dev_can_linux.Resmgr.{ChannelType, rx_channel, tx_channel, Resmgr}
use dev_can_linux.Resmgr.Timing.{Timing, UserDevSetup, only_bittiming, create_user_dev_setup}

-- The settings before the options for the device are looked at.
abbrev pub default_setup : (restart_ms : ℕ) → UserDevSetup
default_setup ms =
    record (only_bittiming (record {
      bitrate = 250000;
      sample_point = 0;
      tq = 0;
      prop_seg = 0;
      phase_seg1 = 0;
      phase_seg2 = 0;
      sjw = 0;
      brp = 0;
    })) { set_restart_ms = true; restart_ms = ms }

abbrev timing_of : BitrateConfig → Timing
timing_of c = record {
  ref_clock_freq = c.bitrate;
  bit_rate_prescaler = c.bprm;
  sync_jump_width = c.sjw;
  time_segment_1 = c.phase_seg1;
  time_segment_2 = c.phase_seg2;
}

-- What the option -b for the device makes of the settings. `wrapped` and `none` are as in
-- `create_user_dev_setup`, which overwrites all of the settings.
unfoldable pub bitrate_setup :
    (wrapped freq : ℕ) → BitrateConfig → UserDevSetup → Option UserDevSetup
bitrate_setup wrapped freq c u =
    if c.bitrate == 0
    then some u
    else if not (c.btr0 == 0) || not (c.btr1 == 0)
    then some (record u {
      set_bittiming = false;
      set_btr = true;
      bittiming = record u.bittiming { bitrate = c.bitrate };
      btr0 = c.btr0 % 256;
      btr1 = c.btr1 % 256;
    })
    else create_user_dev_setup wrapped (timing_of c) freq

abbrev silenced : (opts : Bool) → UserDevSetup → UserDevSetup
silenced opts u = if opts then record u { set_ctrlmode = true; listen_only = true } else u

-- The settings that are handed to `changelink` for device number `id`.
unfoldable pub asked_setup : (wrapped freq : ℕ) → Options → (id : ℕ) → Option UserDevSetup
asked_setup wrapped freq o id = elim (config_of (λ c. c.id) id o.optb_config) [
  | none ↦ some (silenced o.opts (default_setup o.optr_restart_ms))
  | some c ↦ elim (bitrate_setup wrapped freq c (default_setup o.optr_restart_ms)) [
    | none ↦ none
    | some u ↦ some (silenced o.opts u)
  ]
]

-- `num_channels` and `is_extended_mid`
pub record Channels : Type 0 where
  pub num_rx : ℕ
  pub num_tx : ℕ
  pub extended : Bool

unfoldable pub channels_of : Options → (id : ℕ) → Channels
channels_of o id = elim (config_of (λ c. c.id) id o.optu_config) [
  | none ↦ record {
    num_rx = default_num_rx_channels;
    num_tx = default_num_tx_channels;
    extended = o.optx;
  }
  | some c ↦ record {
    num_rx = c.num_rx_channels;
    num_tx = c.num_tx_channels;
    extended = elim c.is_extended_mid [ none ↦ o.optx | some x ↦ x ];
  }
]

-- The name /dev/can<device>/rx<index> or /dev/can<device>/tx<index>.
pub record Name : Type 0 where
  pub device : ℕ
  pub channel_type : ChannelType
  pub index : ℕ

-- A node of the list that `root_resmgr` starts: what has not been written since `malloc`, and an id
-- of -1, is `none`.
pub record Node : Type 0 where
  pub device_session : ℕ
  pub name : Option Name
  pub id : Option ℕ
  pub resmgr : Option Resmgr

-- The list of the resource managers (`Links.Laws.store_lem` shows that `store_resmgr` appends), the
-- flag IFF_UP of the devices, their sessions, and of the sessions the device and whether they have
-- not been freed.
pub record Registry : Type 0 where
  pub next_device_id : ℕ
  pub resmgrs : List Node
  pub up : ℕ → Bool
  pub session : ℕ → ℕ
  pub device : ℕ → ℕ
  pub live : ℕ → Bool

-- What the calls for one channel come to: `malloc`, `dispatch_create`, `resmgr_attach` (`none` for
-- -1), `message_attach`, and the allocation of the dispatch context or the thread pool.
pub record ChannelCalls : Type 0 where
  pub memory : Bool
  pub dispatch : Bool
  pub attach : Option ℕ
  pub message : Bool
  pub threads : Bool

abbrev pub append_node : Node → Registry → Registry
append_node n r = record r { resmgrs = r.resmgrs ++ (n ∷ []) }

abbrev pub fresh_resmgr : ChannelType → (extended : Bool) → Resmgr
fresh_resmgr type extended = record {
  channel_type = type;
  is_extended_mid = extended;
  latency_limit_ms = 0;
  mid = 0;
  mfilter = 4294967295;
  prio = 0;
  shutdown = false;
}

module _ (dev session : ℕ) (extended : Bool) where
  -- A round of the loops over the channels: does it go on; `none` is a write through NULL.
  unfoldable pub add_channel : Name → ChannelCalls → Registry → Option (Bool × Registry)
  add_channel name e r =
      let blank : Node = record {
        device_session = session;
        name = none;
        id = none;
        resmgr = none;
      } in
      let whole : Option ℕ → Node = λ i. record {
        device_session = session;
        name = some name;
        id = i;
        resmgr = some (fresh_resmgr name.channel_type extended);
      } in
      if not e.memory
      then none
      else if not e.dispatch
      then some (false, append_node blank r)
      else elim e.attach [
        | none ↦ some (false, append_node (record blank { name = some name }) r)
        | some i ↦
            if not e.message || not e.threads
            then some (false, append_node (whole (some i)) r)
            else some (true, record (append_node (whole (some i)) r) { up = write r.up dev true })
      ]

  -- `n` channels of one kind, from index `i` on.
  unfoldable pub add_channels :
      (calls : Name → ChannelCalls) (device : ℕ)
      → ChannelType
      → (n i : ℕ) → Registry
      → Option (Bool × Registry)
  add_channels calls device type zero i r = some (true, r)
  add_channels calls device type (suc n) i r =
      let name : Name = record { device = device; channel_type = type; index = i } in
      elim (add_channel name (calls name) r) [
        | none ↦ none
        | some (false, s) ↦ some (false, s)
        | some (true, s) ↦ add_channels calls device type n (suc i) s
      ]

-- What the other calls of `register_netdev` come to: `changelink` of the settings, `ndo_open` (true
-- for 0), and `create_device_session`, whose result may be NULL.
pub record NetdevCalls : Type 0 where
  pub selected : Bool
  pub wrapped : ℕ
  pub freq : ℕ
  pub changelink : UserDevSetup → Bool
  pub ndo_open : Bool
  pub new_session : ℕ
  pub channel_calls : Name → ChannelCalls

-- The receive channels and then the transmit channels.
unfoldable pub add_all : NetdevCalls → (dev id : ℕ) → Channels → Registry → Option (Bool × Registry)
add_all e dev id c r =
    elim (add_channels dev e.new_session c.extended e.channel_calls id rx_channel c.num_rx 0 r) [
      | none ↦ none
      | some (false, s) ↦ some (false, s)
      | some (true, s) ↦
          add_channels dev e.new_session c.extended e.channel_calls id tx_channel c.num_tx 0 s
    ]

-- `create_device_session` has returned a session for the device.
abbrev pub with_session : (dev session : ℕ) → Registry → Registry
with_session dev session r =
    let s = record r { session = write r.session dev session } in
    if session == 0
    then s
    else record s { device = write r.device session dev; live = write r.live session true }

-- `register_netdev`; true is 0 and false is -1. `none` is a write through NULL, or a division that
-- C leaves undefined.
unfoldable pub register_netdev :
    NetdevCalls → Options → (dev : ℕ) → Registry → Option (Bool × Registry)
register_netdev e o dev r =
    let id = r.next_device_id in
    let s = record r { next_device_id = id + 1 } in
    if (dev == 0) || not e.selected
    then some (false, r)
    else elim (asked_setup e.wrapped e.freq o id) [
      | none ↦ none
      | some u ↦
          if not (e.changelink u)
          then some (false, s)
          else if not e.ndo_open
          then some (false, record s { session = write r.session dev 0 })
          else add_all e dev id (channels_of o id) (with_session dev e.new_session s)
    ]

-- The walk of `unregister_netdev` along the list: the list without the first resource manager of the
-- device, and its session (zero where there is none). `none` is a read through a session that is NULL
-- or has been freed.
unfoldable pub remove_first :
    (dev : ℕ) (device : ℕ → ℕ) (live : ℕ → Bool) → List Node → Option (List Node × ℕ)
remove_first dev device live [] = some ([], 0)
remove_first dev device live (n ∷ t) =
    let rest = remove_first dev device live t in
    if (n.device_session == 0) || not (live n.device_session)
    then none
    else if device n.device_session == dev
    then some (t, n.device_session)
    else elim rest [ none ↦ none | some (u, session) ↦ some (n ∷ u, session) ]

-- `unregister_netdev`. The session is destroyed with its first resource manager.
unfoldable pub unregister_netdev : (dev : ℕ) → Registry → Option Registry
unregister_netdev dev r =
    if dev == 0 then some r else elim (remove_first dev r.device r.live r.resmgrs) [
      | none ↦ none
      | some (t, session) ↦
          some
            (record r { resmgrs = t; up = write r.up dev false; live = write r.live session false })
    ]
