-- ===== src/Options/Tests.antt =====
-- Two options for the device 1.
use dev_can_linux.Base.{◌≡◌, refl, true, some, List, [], ◌∷◌, replicate}
use dev_can_linux.Options.Configs.{
  default_channel_config, default_bitrate_config, channel_id, read_channels, is_extended_mid, freq,
  thousands, channel_suboption, bitrate_suboption, suboptions, set_config, option_u, option_b,
  config_of,
}
use dev_can_linux.Options.{
  Options, initial_options, Opt, opt_u, opt_b, opt_x, goes, option, parse_options, Start, starts,
  ids_from, ids_below,
}
use dev_can_linux.Options.Found.{later}
use dev_can_linux.Options.Last.{last_u, last_b, parse_options-config_of}

abbrev asked : List Opt
asked =
    opt_u (channel_id (some (some 1)) ∷ read_channels (some 3) ∷ [])
    ∷ opt_b (channel_id (some (some 1)) ∷ freq (some (250, thousands)) ∷ [])
    ∷ opt_u (channel_id (some (some 1)) ∷ is_extended_mid ∷ [])
    ∷ opt_x
    ∷ []

abbrev parsed : Options
parsed = record initial_options {
  optu_config =
      default_channel_config
      ∷ record default_channel_config { id = some 1; is_extended_mid = some true }
      ∷ [];
  optb_config =
      default_bitrate_config ∷ record default_bitrate_config { id = some 1; bitrate = 250000 } ∷ [];
  optx = true;
}

asked_goes : parse_options asked initial_options ≡ goes parsed
unfolding parse_options option option_u option_b suboptions channel_suboption bitrate_suboption
    set_config replicate
asked_goes = refl

parse_options-config_of_example :
    (config_of (λ c. c.id) 1 parsed.optu_config
      ≡ later (last_u 1 asked) (config_of (λ c. c.id) 1 []))
    × (config_of (λ c. c.id) 1 parsed.optb_config
        ≡ later (last_b 1 asked) (config_of (λ c. c.id) 1 []))
parse_options-config_of_example = parse_options-config_of 1 asked initial_options parsed asked_goes

abbrev started : Start
started = record { fixed_memory = true; selection = true; probe = true; probed = 2; sched = true }

starts-parsed : starts started parsed ≡ true
unfolding starts ids_from ids_below
starts-parsed = refl
