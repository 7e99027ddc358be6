-- ===== src/Options/Configs.antt =====
-- The arrays of configurations that the options -u and -b of src/main.c fill, by the id of a device.
use dev_can_linux.Base.{
  ℕ, ◌+◌, ◌-◌, ◌*◌, Bool, true, false, Option, none, some, List, [], ◌∷◌, ◌++◌, length, set,
  get_elem?, replicate, ltb, ◌==◌, if◌then◌else◌,
}

-- `channel_config_t`. An id of -1 is `none`, and so is -1 for `is_extended_mid`.
pub record ChannelConfig : Type 0 where
  pub id : Option ℕ
  pub num_rx_channels : ℕ
  pub num_tx_channels : ℕ
  pub is_extended_mid : Option Bool

-- `bitrate_config_t`
pub record BitrateConfig : Type 0 where
  pub id : Option ℕ
  pub bitrate : ℕ
  pub bprm : ℕ
  pub phase_seg1 : ℕ
  pub phase_seg2 : ℕ
  pub sjw : ℕ
  pub btr0 : ℕ
  pub btr1 : ℕ

-- DEFAULT_NUM_RX_CHANNELS and DEFAULT_NUM_TX_CHANNELS
abbrev pub default_num_rx_channels : ℕ
default_num_rx_channels = 1

abbrev pub default_num_tx_channels : ℕ
default_num_tx_channels = 1

abbrev pub default_channel_config : ChannelConfig
default_channel_config = record {
  id = none;
  num_rx_channels = default_num_rx_channels;
  num_tx_channels = default_num_tx_channels;
  is_extended_mid = none;
}

abbrev pub default_bitrate_config : BitrateConfig
default_bitrate_config = record {
  id = none;
  bitrate = 0;
  bprm = 0;
  phase_seg1 = 0;
  phase_seg2 = 0;
  sjw = 0;
  btr0 = 0;
  btr1 = 0;
}

-- The unit behind a number: none, `k` or `K`, `m` or `M`.
pub data Units : Type 0 where
  ones thousands millions : Units

-- A suboption that `getsubopt` finds, with its value: `none` where there is none. An id below zero
-- is `some none`; the other numbers are not below zero.
pub data Suboption : Type 0 where
  channel_id : Option (Option ℕ) → Suboption
  read_channels write_channels : Option ℕ → Suboption
  is_standard_mid is_extended_mid : Suboption
  freq : Option (ℕ × Units) → Suboption
  bprm ts1 ts2 sjw btr0 btr1 : Option ℕ → Suboption
  f81601_ex_clk : Option ℕ → Suboption
  unknown_token : Suboption

-- The switch of -u; `none` is EXIT_FAILURE.
unfoldable pub channel_suboption : Suboption → ChannelConfig → Option ChannelConfig
channel_suboption (channel_id none) c = none
channel_suboption (channel_id (some id)) c = some (record c { id = id })
channel_suboption (read_channels none) c = none
channel_suboption (read_channels (some n)) c = some (record c { num_rx_channels = n })
channel_suboption (write_channels none) c = none
channel_suboption (write_channels (some n)) c = some (record c { num_tx_channels = n })
channel_suboption is_standard_mid c = elim c.is_extended_mid [
  | none ↦ some (record c { is_extended_mid = some false })
  | some x ↦ none
]
channel_suboption is_extended_mid c = elim c.is_extended_mid [
  | none ↦ some (record c { is_extended_mid = some true })
  | some x ↦ none
]
channel_suboption _ c = some c

abbrev times : Units → ℕ → ℕ
times ones n = n
times thousands n = n * 1000
times millions n = n * 1000000

-- The switch of -b.
unfoldable pub bitrate_suboption : Suboption → BitrateConfig → Option BitrateConfig
bitrate_suboption (channel_id none) c = none
bitrate_suboption (channel_id (some id)) c = some (record c { id = id })
bitrate_suboption (freq none) c = none
bitrate_suboption (freq (some (n, units))) c = some (record c { bitrate = times units n })
bitrate_suboption (bprm none) c = none
bitrate_suboption (bprm (some n)) c = some (record c { bprm = n })
bitrate_suboption (ts1 none) c = none
bitrate_suboption (ts1 (some n)) c = some (record c { phase_seg1 = n })
bitrate_suboption (ts2 none) c = none
bitrate_suboption (ts2 (some n)) c = some (record c { phase_seg2 = n })
bitrate_suboption (sjw none) c = none
bitrate_suboption (sjw (some n)) c = some (record c { sjw = n })
bitrate_suboption (btr0 none) c = none
bitrate_suboption (btr0 (some n)) c = some (record c { btr0 = n })
bitrate_suboption (btr1 none) c = none
bitrate_suboption (btr1 (some n)) c = some (record c { btr1 = n })
bitrate_suboption _ c = some c

-- `while (*options != '\0') switch (getsubopt(…))`
unfoldable pub suboptions {ℓ} :
    {A : Type ℓ} → (Suboption → A → Option A) → List Suboption → A → Option A
suboptions f [] c = some c
suboptions f (o ∷ os) c = elim (f o c) [ none ↦ none | some d ↦ suboptions f os d ]

-- The array enlarged with defaults, and the new configuration at its id.
unfoldable pub set_config {ℓ} : {A : Type ℓ} → (default : A) (id : ℕ) (new : A) → List A → List A
set_config default id new t =
    let n = length t in
    set (if ltb n (id + 1) then t ++ replicate (id + 1 - n) default else t) id new

-- The whole of -u; `none` is EXIT_FAILURE, also for an id below zero or none.
unfoldable pub option_u : List Suboption → List ChannelConfig → Option (List ChannelConfig)
option_u os t = elim (suboptions channel_suboption os default_channel_config) [
  | none ↦ none
  | some c ↦ elim c.id [ none ↦ none | some id ↦ some (set_config default_channel_config id c t) ]
]

-- The whole of -b.
unfoldable pub option_b : List Suboption → List BitrateConfig → Option (List BitrateConfig)
option_b os t = elim (suboptions bitrate_suboption os default_bitrate_config) [
  | none ↦ none
  | some c ↦ elim c.id [ none ↦ none | some id ↦ some (set_config default_bitrate_config id c t) ]
]

-- `id < num_configs && id == config[id].id`, in `register_netdev` of src/resmgr.c: the configuration
-- that has been given for a device.
abbrev pub matches : Option ℕ → ℕ → Bool
matches none id = false
matches (some i) id = id == i

abbrev pub given {ℓ} : {A : Type ℓ} → (A → Option ℕ) → ℕ → Option A → Option A
given id_of id none = none
given id_of id (some c) = if matches (id_of c) id then some c else none

unfoldable pub config_of {ℓ} : {A : Type ℓ} → (A → Option ℕ) → ℕ → List A → Option A
config_of id_of id t = given id_of id (get_elem? t id)
