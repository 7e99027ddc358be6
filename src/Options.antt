-- ===== src/Options.antt =====
-- src/main.c: the options of the program, and the tests that they have to pass before it starts.
pub mod Configs
pub mod Found
pub mod Last
pub mod Checks
mod Tests
use dev_can_linux.Base.{
  map, ℕ, zero, suc, ◌+◌, Bool, true, false, not, ◌&&◌, Option, none, some, List, [], ◌∷◌, ◌++◌,
  ltb, leb, ◌==◌, if◌then◌else◌,
}
use dev_can_linux.Options.Configs.{
  ChannelConfig, BitrateConfig, Suboption, f81601_ex_clk, suboptions, option_u, option_b,
}

-- MAX_NO_OF_VCAN_CHANNELS
abbrev pub max_no_of_vcan_channels : ℕ
max_no_of_vcan_channels = 16

-- `device_config_t`. Where `cap` is -1, or has not been initialised, it is `none`.
pub record DeviceConfig : Type 0 where
  pub vid : ℕ
  pub did : ℕ
  pub cap : Option ℕ

-- The variables of src/config.c that the options set, `next_device_id`, the module parameters, and
-- the local variable `cap` of `main`.
pub record Options : Type 0 where
  pub optr : ℕ
  pub optr_restart_ms : ℕ
  pub opt_r_error_count : ℕ
  pub optv : ℕ
  pub optl : ℕ
  pub opti : ℕ
  pub optq : Bool
  pub opts : Bool
  pub optt : Bool
  pub optx : Bool
  pub opt_upper_e : Bool
  pub opt_l_num : Option ℕ
  pub next_device_id : ℕ
  pub optu_config : List ChannelConfig
  pub optb_config : List BitrateConfig
  pub disable_device_config : List DeviceConfig
  pub enable_device_cap_config : List DeviceConfig
  pub external_clk : Option ℕ
  pub cap : Option ℕ

-- Their initial values.
abbrev pub initial_options : Options
initial_options = record {
  optr = 0;
  optr_restart_ms = 50;
  opt_r_error_count = 0;
  optv = 0;
  optl = 0;
  opti = 0;
  optq = false;
  opts = false;
  optt = false;
  optx = false;
  opt_upper_e = false;
  opt_l_num = none;
  next_device_id = 0;
  optu_config = [];
  optb_config = [];
  disable_device_config = [];
  enable_device_cap_config = [];
  external_clk = none;
  cap = none;
}

-- What `getopt` returns, with the argument read. The last part of -d and -e, the capability, may be
-- missing; a number below zero for -U is `none`.
pub data Opt : Type 0 where
  opt_r upper_r : (n : ℕ) → Opt
  opt_d opt_e : (vid did : ℕ) (cap : Option ℕ) → Opt
  upper_u : Option ℕ → Opt
  opt_u opt_b opt_m : List Suboption → Opt
  upper_l : (n : ℕ) → Opt
  opt_v opt_q opt_s opt_t opt_l opt_i upper_e opt_x : Opt
  upper_v upper_c opt_w opt_c opt_h : Opt
  invalid_option : Opt

-- The first loop over the options.
unfoldable pub count_verbosity : List Opt → Options → Options
count_verbosity [] s = s
count_verbosity (opt_v ∷ os) s = count_verbosity os (record s { optv = s.optv + 1 })
count_verbosity (opt_l ∷ os) s = count_verbosity os (record s { optl = s.optl + 1 })
count_verbosity (_ ∷ os) s = count_verbosity os s

-- The loop goes on, or the program exits, with success or with failure.
pub data OptionOutcome : Type 0 where
  goes : Options → OptionOutcome
  exit_success exit_failure : OptionOutcome

-- The suboptions of -m.
unfoldable pub module_suboption : Suboption → Option ℕ → Option (Option ℕ)
module_suboption (f81601_ex_clk none) clk = none
module_suboption (f81601_ex_clk (some n)) clk = some (some n)
module_suboption _ clk = some clk

-- A round of the second loop.
unfoldable pub option : Opt → Options → OptionOutcome
option (opt_r n) s = goes (record s { optr = s.optr + 1; optr_restart_ms = n })
option (upper_r n) s = goes (record s { opt_r_error_count = n })
option (opt_d vid did none) s = goes (record s {
  disable_device_config =
      s.disable_device_config ++ (record { vid = vid; did = did; cap = none } ∷ []);
})
option (opt_d vid did (some cap)) s = goes (record s {
  disable_device_config =
      s.disable_device_config ++ (record { vid = vid; did = did; cap = some cap } ∷ []);
  cap = some cap;
})
option (opt_e vid did none) s = goes (record s {
  enable_device_cap_config =
      s.enable_device_cap_config ++ (record { vid = vid; did = did; cap = s.cap } ∷ []);
})
option (opt_e vid did (some cap)) s = goes (record s {
  enable_device_cap_config =
      s.enable_device_cap_config ++ (record { vid = vid; did = did; cap = some cap } ∷ []);
  cap = some cap;
})
option (upper_u none) s = exit_failure
option (upper_u (some n)) s = goes (record s { next_device_id = n })
option (opt_u os) s = elim (option_u os s.optu_config) [
  | none ↦ exit_failure
  | some t ↦ goes (record s { optu_config = t })
]
option (opt_b os) s = elim (option_b os s.optb_config) [
  | none ↦ exit_failure
  | some t ↦ goes (record s { optb_config = t })
]
option (opt_m os) s = elim (suboptions module_suboption os s.external_clk) [
  | none ↦ exit_failure
  | some clk ↦ goes (record s { external_clk = clk })
]
option (upper_l n) s =
    if ltb max_no_of_vcan_channels n then exit_failure else goes (record s { opt_l_num = some n })
option opt_v s = goes s
option opt_q s = goes (record s { optq = true })
option opt_s s = goes (record s { opts = true })
option opt_t s = goes (record s { optt = true })
option opt_l s = goes s
option opt_i s = goes (record s { opti = s.opti + 1 })
option upper_e s = goes (record s { opt_upper_e = true })
option opt_x s = goes (record s { optx = true })
option upper_v s = exit_success
option upper_c s = exit_success
option opt_w s = exit_success
option opt_c s = exit_success
option opt_h s = exit_success
option invalid_option s = goes s

unfoldable pub parse_options : List Opt → Options → OptionOutcome
parse_options [] s = goes s
parse_options (o ∷ os) s = elim (option o s) [
  | goes t ↦ parse_options os t
  | exit_success ↦ exit_success
  | exit_failure ↦ exit_failure
]

-- The loops that test the ids against `next_device_id`, before and after the devices are probed.
unfoldable pub ids_from : (next : ℕ) → List (Option ℕ) → Bool
ids_from next [] = true
ids_from next (none ∷ ids) = ids_from next ids
ids_from next (some id ∷ ids) = not (ltb id next) && ids_from next ids

unfoldable pub ids_below : (next : ℕ) → List (Option ℕ) → Bool
ids_below next [] = true
ids_below next (none ∷ ids) = ids_below next ids
ids_below next (some id ∷ ids) = not (leb next id) && ids_below next ids

-- What the calls that start the drivers come to. `probed` is `next_device_id` behind them.
pub record Start : Type 0 where
  pub fixed_memory : Bool
  pub selection : Bool
  pub probe : Bool
  pub probed : ℕ
  pub sched : Bool

-- The rest of `main` up to its loop: does the program run. The option -i prints and exits.
unfoldable pub starts : Start → Options → Bool
starts e s =
    let us = map (λ c. c.id) s.optu_config in
    let bs = map (λ c. c.id) s.optb_config in
    not (ltb 0 s.opti)
    && not (ltb 1 s.optr)
    && ids_from s.next_device_id us
    && ids_from s.next_device_id bs
    && e.fixed_memory
    && e.selection
    && e.probe
    && ids_below e.probed us
    && ids_below e.probed bs
    && e.sched

-- `main` from its options: does the program come to run.
unfoldable pub runs : Start → List Opt → Options → Bool
runs e os s = elim (parse_options os (count_verbosity os s)) [
  | goes t ↦ starts e t
  | exit_success ↦ false
  | exit_failure ↦ false
]
