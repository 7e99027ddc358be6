-- ===== src/Options/Last.antt =====
-- The last option for a device counts.
use dev_can_linux.Base.{
  ℕ, ◌≡◌, refl, sym, ap, ◌∙◌, inl, inr, ◌⊎◌, Option-cases, Option, none, some, List, [], ◌∷◌, arith,
}
use dev_can_linux.Options.Configs.{
  ChannelConfig, BitrateConfig, Suboption, default_channel_config, default_bitrate_config,
  channel_suboption, bitrate_suboption, suboptions, option_u, option_b, given, config_of,
}
use dev_can_linux.Options.{
  Options, Opt, opt_u, opt_b, OptionOutcome, goes, exit_success, exit_failure, option,
  parse_options,
}
use dev_can_linux.Options.Found.{later, later-none, later_assoc, configured, config_of-configured}

OptionOutcome-cases :
    (r : OptionOutcome) → ((t : Options) × (r ≡ goes t)) ⊎ (r ≡ exit_success) ⊎ (r ≡ exit_failure)
OptionOutcome-cases (goes t) = inl (t, refl)
OptionOutcome-cases exit_success = inr (inl refl)
OptionOutcome-cases exit_failure = inr (inr refl)

-- The configuration of the last option for a device.
abbrev pub last_u : ℕ → List Opt → Option ChannelConfig
last_u id [] = none
last_u id (opt_u os ∷ rest) =
    later (last_u id rest)
      (given (λ c. c.id) id (suboptions channel_suboption os default_channel_config))
last_u id (_ ∷ rest) = last_u id rest

abbrev pub last_b : ℕ → List Opt → Option BitrateConfig
last_b id [] = none
last_b id (opt_b os ∷ rest) =
    later (last_b id rest)
      (given (λ c. c.id) id (suboptions bitrate_suboption os default_bitrate_config))
last_b id (_ ∷ rest) = last_b id rest

module _ (id : ℕ) where
  option_u-config_of :
      (os : List Suboption) (t u : List ChannelConfig)
      → option_u os t ≡ some u
      → config_of (λ c. c.id) id u
        ≡ later
            (given (λ c. c.id) id (suboptions channel_suboption os default_channel_config))
            (config_of (λ c. c.id) id t)
  unfolding option_u configured
  option_u-config_of os t u e =
      elim (Option-cases (suboptions channel_suboption os default_channel_config)) [
        | inl n ↦ absurd (ground arith)
        | inr (c, p) ↦ rw p (
            config_of-configured (λ c. c.id) default_channel_config refl id (some c) t u
              (ground arith))
      ]

  option_b-config_of :
      (os : List Suboption) (t u : List BitrateConfig)
      → option_b os t ≡ some u
      → config_of (λ c. c.id) id u
        ≡ later
            (given (λ c. c.id) id (suboptions bitrate_suboption os default_bitrate_config))
            (config_of (λ c. c.id) id t)
  unfolding option_b configured
  option_b-config_of os t u e =
      elim (Option-cases (suboptions bitrate_suboption os default_bitrate_config)) [
        | inl n ↦ absurd (ground arith)
        | inr (c, p) ↦ rw p (
            config_of-configured (λ c. c.id) default_bitrate_config refl id (some c) t u
              (ground arith))
      ]

  -- What one option does to the configurations.
  optu_after : Opt → List ChannelConfig → Option (List ChannelConfig)
  optu_after (opt_u os) t = option_u os t
  optu_after _ t = some t

  optb_after : Opt → List BitrateConfig → Option (List BitrateConfig)
  optb_after (opt_b os) t = option_b os t
  optb_after _ t = some t

  option-after :
      (o : Opt) (s t : Options)
      → option o s ≡ goes t
      → (optu_after o s.optu_config ≡ some t.optu_config)
        × (optb_after o s.optb_config ≡ some t.optb_config)
  unfolding option optu_after optb_after
  option-after o s t e = ground arith

  config_of-optu_after :
      (o : Opt) (t u : List ChannelConfig)
      → optu_after o t ≡ some u
      → config_of (λ c. c.id) id u ≡ later (last_u id (o ∷ [])) (config_of (λ c. c.id) id t)
  unfolding optu_after
  config_of-optu_after (opt_u os) t u e = option_u-config_of os t u e
  config_of-optu_after o t u e = ap (config_of (λ c. c.id) id) (ground arith)

  config_of-optb_after :
      (o : Opt) (t u : List BitrateConfig)
      → optb_after o t ≡ some u
      → config_of (λ c. c.id) id u ≡ later (last_b id (o ∷ [])) (config_of (λ c. c.id) id t)
  unfolding optb_after
  config_of-optb_after (opt_b os) t u e = option_b-config_of os t u e
  config_of-optb_after o t u e = ap (config_of (λ c. c.id) id) (ground arith)

  last_u-cons :
      (o : Opt) (os : List Opt) → last_u id (o ∷ os) ≡ later (last_u id os) (last_u id (o ∷ []))
  last_u-cons (opt_u xs) os = refl
  last_u-cons o os = sym (later-none (last_u id os))

  last_b-cons :
      (o : Opt) (os : List Opt) → last_b id (o ∷ os) ≡ later (last_b id os) (last_b id (o ∷ []))
  last_b-cons (opt_b xs) os = refl
  last_b-cons o os = sym (later-none (last_b id os))

  -- Where the program does not exit, the configurations that a device is found to have by its id are
  -- those of the last -u and the last -b with that id, whole and not merged with earlier ones, or those
  -- from before the options.
  pub parse_options-config_of :
      (os : List Opt) (s t : Options)
      → parse_options os s ≡ goes t
      → (config_of (λ c. c.id) id t.optu_config
          ≡ later (last_u id os) (config_of (λ c. c.id) id s.optu_config))
        × (config_of (λ c. c.id) id t.optb_config
            ≡ later (last_b id os) (config_of (λ c. c.id) id s.optb_config))
  unfolding parse_options
  parse_options-config_of [] s t e = (ground arith, ground arith)
  parse_options-config_of (o ∷ os) s t e = elim (OptionOutcome-cases (option o s)) [
    | inl (u, p) ↦
        let (pu, pb) = option-after o s u p in
        let (ru, rb) = parse_options-config_of os u t (ground arith) in
        (
          ru
              ∙ ap (later (last_u id os)) (config_of-optu_after o s.optu_config u.optu_config pu)
              ∙ later_assoc (last_u id os) (last_u id (o ∷ [])) _
              ∙ ap (λ x. later x (config_of (λ c. c.id) id s.optu_config)) (sym (last_u-cons o os)),
          rb
              ∙ ap (later (last_b id os)) (config_of-optb_after o s.optb_config u.optb_config pb)
              ∙ later_assoc (last_b id os) (last_b id (o ∷ [])) _
              ∙ ap (λ x. later x (config_of (λ c. c.id) id s.optb_config)) (sym (last_b-cons o os)),
        )
    | inr (inl stops) ↦ absurd (ground arith)
    | inr (inr stops) ↦ absurd (ground arith)
  ]
