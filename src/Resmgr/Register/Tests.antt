-- ===== src/Resmgr/Register/Tests.antt =====
-- One device with the default channels.
use dev_can_linux.Base.{ℕ, ◌+◌, ◌≡◌, refl, true, false, some, none, [], ◌∷◌, ◌++◌, arith}
use dev_can_linux.Options.{Options, initial_options}
use dev_can_linux.Options.Configs.{default_bitrate_config, config_of}
use dev_can_linux.Resmgr.{rx_channel, tx_channel}
use dev_can_linux.Resmgr.Timing.{UserDevSetup, create_user_dev_setup, user2}
use dev_can_linux.Resmgr.Register.{
  Node, Registry, NetdevCalls, default_setup, bitrate_setup, asked_setup, channels_of, with_session,
  register_netdev, fresh_resmgr,
}
use dev_can_linux.Resmgr.Register.{add_all, add_channels, add_channel}
use dev_can_linux.Resmgr.Register.Named.{IsNamed, register_netdev-IsNamed}
use dev_can_linux.Resmgr.Register.Added.{Grown, nodes, register_netdev-Grown}

abbrev plain : Options
plain = record initial_options { opts = true }

abbrev calls : NetdevCalls
calls = record {
  selected = true;
  wrapped = 0;
  freq = 8000000;
  changelink = λ u. true;
  ndo_open = true;
  new_session = 70;
  channel_calls = λ name. record {
    memory = true;
    dispatch = true;
    attach = some (name.index + 5);
    message = true;
    threads = true;
  };
}

abbrev empty : Registry
empty = record {
  next_device_id = 0;
  resmgrs = [];
  up = λ d. false;
  session = λ d. 0;
  device = λ s. 0;
  live = λ s. false;
}

abbrev plain_setup : UserDevSetup
plain_setup = record (default_setup 50) { set_ctrlmode = true; listen_only = true }

plain_asked : asked_setup 0 8000000 plain 0 ≡ some plain_setup
unfolding asked_setup config_of
plain_asked = refl

register_netdev-Grown_example :
    let c = channels_of plain 0 in
    (s : Registry) × (register_netdev calls plain 9 empty ≡ some (true, s))
    × Grown
        (nodes 70 0 c.extended (λ name. name.index + 5) rx_channel c.num_rx 0
          ++ nodes 70 0 c.extended (λ name. name.index + 5) tx_channel c.num_tx 0)
        (with_session 9 70 (record empty { next_device_id = 1 }))
        s
register_netdev-Grown_example =
    register_netdev-Grown calls plain 9 empty (λ name. name.index + 5) plain_setup (omega arith)
      plain_asked
      (record {
        selected = refl;
        changelink = refl;
        ndo_open = refl;
        channels = λ name. record {
          memory = refl;
          dispatch = refl;
          attach = refl;
          message = refl;
          threads = refl;
        };
      })

-- With a bit rate for the device the restart time is lost.
abbrev with_bitrate : Options
with_bitrate = record initial_options {
  optb_config = record default_bitrate_config { id = some 0; bitrate = 500000 } ∷ [];
}

abbrev bitrate_asked : UserDevSetup
bitrate_asked = record (default_setup 0) {
  set_restart_ms = false;
  bittiming = record (default_setup 0).bittiming { bitrate = 500000 };
}

with_bitrate_asked : asked_setup 0 8000000 with_bitrate 0 ≡ some bitrate_asked
unfolding asked_setup config_of bitrate_setup create_user_dev_setup user2
with_bitrate_asked = refl

abbrev node : ℕ → Node
node i = record {
  device_session = 70;
  name = some (record { device = 0; channel_type = rx_channel; index = i });
  id = some (i + 5);
  resmgr = some (fresh_resmgr rx_channel false);
}

abbrev one_device : Registry
one_device = record empty {
  next_device_id = 1;
  resmgrs = node 0 ∷ node 1 ∷ [];
  device = λ s. 9;
  live = λ s. true;
}

-- `dispatch_create` fails for the first transmit channel.
abbrev broken : NetdevCalls
broken = record calls {
  channel_calls = λ name. record {
    memory = true;
    dispatch = elim name.channel_type [ rx_channel ↦ true | tx_channel ↦ false ];
    attach = some (name.index + 5);
    message = true;
    threads = true;
  };
}

abbrev half : Registry
half = elim (register_netdev broken plain 9 empty) [ none ↦ empty | some (b, s) ↦ s ]

half_registered : register_netdev broken plain 9 empty ≡ some (false, half)
unfolding register_netdev asked_setup config_of channels_of add_all add_channels add_channel
half_registered = refl

register_netdev-IsNamed_example : IsNamed half
register_netdev-IsNamed_example =
    register_netdev-IsNamed broken plain 9 empty half false half_registered
      (record { before = tt; apart = tt })
