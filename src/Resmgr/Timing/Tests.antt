-- ===== src/Resmgr/Timing/Tests.antt =====
-- 250 kbit/s from a clock of 16 MHz.
use dev_can_linux.Base.{◌≡◌, refl, some, arith}
use dev_can_linux.Resmgr.Timing.{
  Timing, UserDevSetup, create_user_dev_setup, user2, divided, only_bittiming, user1, int_quotient,
}
use dev_can_linux.Resmgr.Timing.Laws.{Divides, create_user_dev_setup-Divides, prescaler_zero}

abbrev slow : Timing
slow = record {
  ref_clock_freq = 250000;
  bit_rate_prescaler = 4;
  sync_jump_width = 1;
  time_segment_1 = 7;
  time_segment_2 = 2;
}

abbrev unset : Timing
unset = record slow { bit_rate_prescaler = 0 }

abbrev fast : Timing
fast = record slow { ref_clock_freq = 1000000; bit_rate_prescaler = 64 }

slow_bit : create_user_dev_setup 0 slow 16000000 ≡ some (only_bittiming (divided 0 slow 250 16))
unfolding create_user_dev_setup user1 int_quotient
slow_bit = refl

create_user_dev_setup-Divides_example :
    (u : UserDevSetup) × (create_user_dev_setup 0 slow 16000000 ≡ some u)
    × (u.bittiming.tq ≡ 250)
    × Divides slow 16 u.bittiming
create_user_dev_setup-Divides_example =
    create_user_dev_setup-Divides 0 16000000 slow (omega arith) (omega arith) (omega arith)
      (omega arith) (omega arith) (omega arith) (omega arith)

unset_prescaler : create_user_dev_setup 0 unset 16000000 ≡ some (user2 unset)
unset_prescaler = prescaler_zero 0 16000000 unset refl
