-- ===== src/Resmgr/Register/Setup.antt =====
-- What the options ask of a device.
use dev_can_linux.Base.{
  ℕ, ◌*◌, ◌≡◌, refl, sym, subst, inl, inr, Bool-cases, Option-cases, Bool, true, false, not, ◌&&◌,
  ◌||◌, Option, none, some, arith, ◌==◌, if◌then◌else◌,
}
use dev_can_linux.Options.{Options}
use dev_can_linux.Options.Configs.{BitrateConfig, config_of}
use dev_can_linux.Resmgr.Timing.{
  Timing, Bittiming, UserDevSetup, only_bittiming, int_quotient, user1, user2, divided,
  create_user_dev_setup,
}
use dev_can_linux.Resmgr.Register.{default_setup, timing_of, bitrate_setup, silenced, asked_setup}

-- Does the option for the device ask for the registers, or for a bit timing?
abbrev pub asks_btr : Option BitrateConfig → Bool
asks_btr none = false
asks_btr (some c) = not (c.bitrate == 0) && (not (c.btr0 == 0) || not (c.btr1 == 0))

abbrev pub asks_timing : Option BitrateConfig → Bool
asks_timing none = false
asks_timing (some c) = not (c.bitrate == 0) && (c.btr0 == 0) && (c.btr1 == 0)

create_user_dev_setup-only_bittiming :
    (wrapped : ℕ) (t : Timing) (freq : ℕ) (u : UserDevSetup)
    → create_user_dev_setup wrapped t freq ≡ some u
    → (b : Bittiming) × (u ≡ only_bittiming b)
unfolding create_user_dev_setup user1 user2
create_user_dev_setup-only_bittiming wrapped t freq u e =
    elim (Bool-cases (t.bit_rate_prescaler == 0)) [
      | inl z ↦ ((user2 t).bittiming, ground arith)
      | inr nz ↦ elim (Option-cases (int_quotient (t.bit_rate_prescaler * 1000000000) freq)) [
        | inl n ↦ absurd (ground arith)
        | inr (tq, p) ↦ elim (Option-cases (int_quotient 1000000000 (t.ref_clock_freq * tq))) [
          | inl n ↦ absurd (ground arith)
          | inr (one, q) ↦ (divided wrapped t tq one, ground arith)
        ]
      ]
    ]

-- What the settings say besides the bit timing.
pub record Asks (c : Option BitrateConfig) (ms : ℕ) (opts : Bool) (u : UserDevSetup) : Type 0 where
  pub silent : (u.set_ctrlmode ≡ opts) × (u.listen_only ≡ opts)
  pub registers : (u.set_btr ≡ asks_btr c) × (u.set_bittiming ≡ not (asks_btr c))
  pub restart : u.set_restart_ms ≡ not (asks_timing c)
  pub restart_ms : u.restart_ms ≡ (if asks_timing c then 0 else ms)

silenced-Asks :
    (c : Option BitrateConfig) (ms : ℕ) (opts : Bool) (u : UserDevSetup)
    → Asks c ms false u
    → Asks c ms opts (silenced opts u)
silenced-Asks c ms true u a = record {
  silent = (refl, refl);
  registers = a.registers;
  restart = a.restart;
  restart_ms = a.restart_ms;
}
silenced-Asks c ms false u a = a

bitrate_setup-Asks :
    (wrapped freq : ℕ) (c : BitrateConfig) (ms : ℕ) (u : UserDevSetup)
    → bitrate_setup wrapped freq c (default_setup ms) ≡ some u
    → Asks (some c) ms false u
unfolding bitrate_setup
bitrate_setup-Asks wrapped freq c ms u e = elim (Bool-cases (asks_timing (some c))) [
  | inl t ↦
      let (b, only) =
        create_user_dev_setup-only_bittiming wrapped (timing_of c) freq u (ground arith) in
      subst (Asks (some c) ms false) (sym only) (record {
        silent = (refl, refl);
        registers = ground arith;
        restart = ground arith;
        restart_ms = ground arith;
      })
  | inr f ↦ ground arith
]

-- Where the settings for a device can be computed: it is silent exactly with -s; it is given the
-- registers, and no bit timing, exactly where its -b has a bit rate and a register that is not zero;
-- and it is given the restart time of -r, unless its -b has a bit rate and no registers.
pub asked_setup-Asks :
    (wrapped freq : ℕ) (o : Options) (id : ℕ) (u : UserDevSetup)
    → asked_setup wrapped freq o id ≡ some u
    → Asks (config_of (λ c. c.id) id o.optb_config) o.optr_restart_ms o.opts u
unfolding asked_setup
asked_setup-Asks wrapped freq o id u e =
    elim (Option-cases (config_of (λ c. c.id) id o.optb_config)) [
      | inl n ↦
          let same : silenced o.opts (default_setup o.optr_restart_ms) ≡ u = ground arith in
          let a : Asks none o.optr_restart_ms false (default_setup o.optr_restart_ms) = record {
            silent = (refl, refl);
            registers = (refl, refl);
            restart = refl;
            restart_ms = refl;
          } in
          rw n (
            subst (Asks none o.optr_restart_ms o.opts) same
              (silenced-Asks none o.optr_restart_ms o.opts _ a))
      | inr (c, p) ↦
          elim (Option-cases (bitrate_setup wrapped freq c (default_setup o.optr_restart_ms))) [
            | inl n ↦ absurd (ground arith)
            | inr (v, q) ↦
                let same : silenced o.opts v ≡ u = ground arith in
                rw p (
                  subst (Asks (some c) o.optr_restart_ms o.opts) same (
                    silenced-Asks (some c) o.optr_restart_ms o.opts v
                      (bitrate_setup-Asks wrapped freq c o.optr_restart_ms v q)))
          ]
    ]
