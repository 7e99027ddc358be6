-- ===== src/Resmgr/Timing/Laws.antt =====
-- The timing fits the bit rate that was asked for.
use native.Mathlib.Nat.{div-eq_of_lt}
use dev_can_linux.Base.{
  ℕ, ◌+◌, ◌*◌, ◌/◌, ◌^◌, ◌≤◌, ◌<◌, ◌≡◌, ◌≢◌, refl, ◌∙◌, false, none, some, arith, ◌==◌,
}
use dev_can_linux.Resmgr.Timing.{
  Timing, Bittiming, UserDevSetup, only_bittiming, int_quotient, user1, user2, divided,
  create_user_dev_setup,
}

int_quotient-some : (a b : ℕ) → 0 < b → a / b < 2 ^ 31 → int_quotient a b ≡ some (a / b)
unfolding int_quotient
int_quotient-some a b h l = ground arith

create_lem :
    (wrapped freq : ℕ) (t : Timing) {tq one_bit : ℕ}
    → t.bit_rate_prescaler ≢ 0
    → int_quotient (t.bit_rate_prescaler * 1000000000) freq ≡ some tq
    → int_quotient 1000000000 (t.ref_clock_freq * tq) ≡ some one_bit
    → create_user_dev_setup wrapped t freq ≡ user1 wrapped t tq one_bit
unfolding create_user_dev_setup
create_lem wrapped freq t p q o =
    let more : (t.bit_rate_prescaler == 0) ≡ false = ground arith in rw (more, q) (rw o refl)

-- The segments that are asked for, and the one computed.
pub record Divides (t : Timing) (one_bit : ℕ) (b : Bittiming) : Type 0 where
  pub segments : b.sjw + b.prop_seg + b.phase_seg1 + b.phase_seg2 ≡ one_bit
  pub first : b.phase_seg1 ≡ t.time_segment_1
  pub second : b.phase_seg2 ≡ t.time_segment_2
  pub jump : b.sjw ≡ t.sync_jump_width
  pub prescaler : b.brp ≡ t.bit_rate_prescaler

user1-Divides :
    (wrapped : ℕ) (t : Timing) (tq one_bit : ℕ)
    → 0 < one_bit
    → one_bit < 2 ^ 31
    → t.sync_jump_width + t.time_segment_1 + t.time_segment_2 ≤ one_bit
    → (u : UserDevSetup) × (user1 wrapped t tq one_bit ≡ some u)
      × (u.bittiming.tq ≡ tq)
      × Divides t one_bit u.bittiming
unfolding user1 divided
user1-Divides wrapped t tq one_bit pos b s =
    let more : (one_bit == 0) ≡ false = ground arith in
    (
      only_bittiming (divided wrapped t tq one_bit),
      rw more refl,
      refl,
      record {
        segments = omega (arith, s);
        first = refl;
        second = refl;
        jump = refl;
        prescaler = refl;
      },
    )

-- For a prescaler that is not zero, segments that are no longer than the bit, and a clock and a bit
-- rate for which the quotients are ints, the four segments are together one bit: as many quanta as
-- go into it.
pub create_user_dev_setup-Divides :
    (wrapped freq : ℕ) (t : Timing)
    → let tq = t.bit_rate_prescaler * 1000000000 / freq in
      let one_bit = 1000000000 / (t.ref_clock_freq * tq) in
      t.bit_rate_prescaler ≢ 0
      → 0 < freq
      → tq < 2 ^ 31
      → 0 < t.ref_clock_freq * tq
      → 0 < one_bit
      → one_bit < 2 ^ 31
      → t.sync_jump_width + t.time_segment_1 + t.time_segment_2 ≤ one_bit
      → (u : UserDevSetup) × (create_user_dev_setup wrapped t freq ≡ some u)
        × (u.bittiming.tq ≡ tq)
        × Divides t one_bit u.bittiming
create_user_dev_setup-Divides wrapped freq t p f q r o b s =
    let tq = t.bit_rate_prescaler * 1000000000 / freq in
    let one_bit = 1000000000 / (t.ref_clock_freq * tq) in
    let (u, gives, quantum, d) = user1-Divides wrapped t tq one_bit o b s in
    (
      u,
      create_lem wrapped freq t p (int_quotient-some _ freq f q)
            (int_quotient-some 1000000000 _ r b)
          ∙ gives,
      quantum,
      d,
    )

-- A bit rate of zero prescaler is handed on to be worked out by the drivers.
pub prescaler_zero :
    (wrapped freq : ℕ) (t : Timing)
    → t.bit_rate_prescaler ≡ 0
    → create_user_dev_setup wrapped t freq ≡ some (user2 t)
unfolding create_user_dev_setup
prescaler_zero wrapped freq t p = ground arith

-- A quantum longer than a bit makes the function divide by zero.
pub long_quantum-none :
    (wrapped freq : ℕ) (t : Timing)
    → let tq = t.bit_rate_prescaler * 1000000000 / freq in
      t.bit_rate_prescaler ≢ 0
      → 0 < freq
      → tq < 2 ^ 31
      → 1000000000 < t.ref_clock_freq * tq
      → create_user_dev_setup wrapped t freq ≡ none
unfolding user1
long_quantum-none wrapped freq t p f q l =
    let tq = t.bit_rate_prescaler * 1000000000 / freq in
    let none_fits : 1000000000 / (t.ref_clock_freq * tq) ≡ 0 = div-eq_of_lt l in
    create_lem wrapped freq t p (int_quotient-some _ freq f q) (
      int_quotient-some 1000000000 (t.ref_clock_freq * tq) (omega arith) (omega (arith, none_fits)))
    ∙ ground (arith, none_fits)
