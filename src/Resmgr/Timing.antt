-- ===== src/Resmgr/Timing.antt =====
-- `create_user_dev_setup` of src/resmgr.c: the bit timing that a client or an option asks for, as
-- `struct user_dev_setup` for the Linux drivers. BILLION is the double 1e9: quotients are
-- rounded down when they are stored in an int, and what C leaves undefined there is `none`.
pub mod Laws
mod Tests
use dev_can_linux.Base.{
  ℕ, ◌+◌, ◌-◌, ◌*◌, ◌/◌, ◌^◌, Bool, true, false, Option, none, some, leb, ltb, ◌==◌, if◌then◌else◌,
}
use dev_can_linux.Base.Word.{u32}

-- `struct can_devctl_timing` of QNX.
pub record Timing : Type 0 where
  pub ref_clock_freq : ℕ
  pub bit_rate_prescaler : ℕ
  pub sync_jump_width : ℕ
  pub time_segment_1 : ℕ
  pub time_segment_2 : ℕ

-- `struct can_bittiming` of Linux.
pub record Bittiming : Type 0 where
  pub bitrate : ℕ
  pub sample_point : ℕ
  pub tq : ℕ
  pub prop_seg : ℕ
  pub phase_seg1 : ℕ
  pub phase_seg2 : ℕ
  pub sjw : ℕ
  pub brp : ℕ

-- `struct user_dev_setup`, as far as the resource managers fill it in.
pub record UserDevSetup : Type 0 where
  pub bittiming : Bittiming
  pub btr0 : ℕ
  pub btr1 : ℕ
  pub listen_only : Bool
  pub restart_ms : ℕ
  pub set_bittiming : Bool
  pub set_btr : Bool
  pub set_ctrlmode : Bool
  pub set_restart_ms : Bool

-- A designated initialiser zeroes the members it does not name.
abbrev pub only_bittiming : Bittiming → UserDevSetup
only_bittiming b = record {
  bittiming = b;
  btr0 = 0;
  btr1 = 0;
  listen_only = false;
  restart_ms = 0;
  set_bittiming = true;
  set_btr = false;
  set_ctrlmode = false;
  set_restart_ms = false;
}

-- `int x = a / b` with a double quotient.
unfoldable pub int_quotient : ℕ → ℕ → Option ℕ
int_quotient a b = if b == 0 then none else if ltb (a / b) (2 ^ 31) then some (a / b) else none

-- The timing of `user1`. `wrapped` is the sample point that C computes where the segments exceed
-- the bit, which depends on the types of the members of the QNX structure.
unfoldable pub divided : (wrapped : ℕ) → Timing → (tq one_bit : ℕ) → Bittiming
divided wrapped t tq one_bit =
    let asked = t.sync_jump_width + t.time_segment_1 + t.time_segment_2 in
    record {
      bitrate = 0;
      sample_point =
          if leb asked one_bit then (one_bit - t.time_segment_2) * 10 / one_bit else wrapped;
      tq = tq;
      prop_seg = u32 (one_bit + 2 ^ 32 * 3 - asked);
      phase_seg1 = t.time_segment_1;
      phase_seg2 = t.time_segment_2;
      sjw = t.sync_jump_width;
      brp = t.bit_rate_prescaler;
    }

-- The division by `one_bit` is one of ints.
unfoldable pub user1 : (wrapped : ℕ) → Timing → (tq one_bit : ℕ) → Option UserDevSetup
user1 wrapped t tq one_bit =
    if one_bit == 0 then none else some (only_bittiming (divided wrapped t tq one_bit))

unfoldable pub user2 : Timing → UserDevSetup
user2 t = only_bittiming (record {
  bitrate = t.ref_clock_freq;
  sample_point = 0;
  tq = 0;
  prop_seg = 0;
  phase_seg1 = 0;
  phase_seg2 = 0;
  sjw = 0;
  brp = 0;
})

-- The whole function. With a prescaler of zero the members of `user1` are computed too, from a
-- quotient by zero that is infinite; they are not used.
unfoldable pub create_user_dev_setup : (wrapped : ℕ) → Timing → (freq : ℕ) → Option UserDevSetup
create_user_dev_setup wrapped t freq =
    if t.bit_rate_prescaler == 0
    then some (user2 t)
    else elim (int_quotient (t.bit_rate_prescaler * 1000000000) freq) [
      | none ↦ none
      | some tq ↦ elim (int_quotient 1000000000 (t.ref_clock_freq * tq)) [
        | none ↦ none
        | some one_bit ↦ user1 wrapped t tq one_bit
      ]
    ]
