-- ===== src/Aac/Examples.antt =====
-- Concrete configs and headers.
use gomedia.Common.{◌+◌, ◌*◌, ◌≡◌, refl, inr, arith, [], ◌∷◌}
use gomedia.Pio.{Bytes}
use gomedia.Aac.{Mpeg4AudioConfig, parse_config, parsed, write_config}
use gomedia.Aac.Config.{parse_config-write_config}
use gomedia.Aac.Adts.{parse_adts_header, header, fill_adts_header, filled}
use gomedia.Aac.Adts.RoundTrip.{parse-fill_adts_header}

abbrev stereo : Mpeg4AudioConfig
stereo = record {
  sample_rate = 44100;
  channel_layout = 6;
  object_type = 2;
  sample_rate_index = 4;
  channel_config = 2;
}

-- An extended type, and a rate that is not in the table.
abbrev unusual : Mpeg4AudioConfig
unusual = record {
  sample_rate = 44000;
  channel_layout = 0;
  object_type = 42;
  sample_rate_index = 15;
  channel_config = 8;
}

parse_config-write_config_example : parse_config (write_config unusual) ≡ parsed unusual
parse_config-write_config_example =
    parse_config-write_config unusual (inr (omega arith, omega arith)) (inr (refl, omega arith))
      (inr (omega arith, omega arith, refl))

parse-fill_adts_header_example :
    (bytes : Bytes) × (fill_adts_header
        (0 ∷ 0 ∷ 0 ∷ 0xff ∷ 0 ∷ 0 ∷ 0 ∷ [])
        stereo
        ((0 + 1) * 1024)
        100
      ≡ filled bytes)
    × (parse_adts_header bytes
        ≡ header
            (record { config = stereo; hdrlen = 7; framelen = 100 + 7; samples = (0 + 1) * 1024 }))
parse-fill_adts_header_example =
    parse-fill_adts_header 0 0 0 0xff 0 0 0 [] stereo 0 100 (omega arith)
      (omega arith, omega arith, omega arith, refl, omega arith, refl) (omega arith) (omega arith)
