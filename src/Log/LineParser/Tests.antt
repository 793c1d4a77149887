-- ===== src/Log/LineParser/Tests.antt =====
-- components/croniot/src/log/LineParser.cpp: both parsers on lines of ESP-IDF.
use croniot_iot.Prelude.{◌++◌, ◌≡◌, refl, some, none, take, codes, Bytes, bytes_eq, arith, ◌∷◌}
use croniot_iot.Log.Record.{info, zero_record}
use croniot_iot.Log.LineParser.{
  escape, ansi_reset, ParsedLine, trim_end, trim_reset, find_m, leading_ansi_length, skip_digits,
  number_at, find_colon, shape_at, shape_of, find_shape, level_from_char, is_level_char,
  parse_esp_log_line, parse_esp_log_line_fast,
}
use croniot_iot.Log.LineParser.Parts.{esp_line}
use croniot_iot.Log.LineParser.Colour.{in_colour}
use croniot_iot.Log.LineParser.RoundTrip.{parse_esp_log_line-in_colour}
use croniot_iot.Log.LineParser.Agree.{record_of, parse_esp_log_line_fast-agrees}

abbrev coloured : Bytes
coloured = escape ∷ codes "[0;32mI (4012) wifi: up: 3" ++ ansi_reset ++ codes "\r\n"

-- A buffer that goes on behind the line.
abbrev buffer : Bytes
buffer = coloured ++ codes "E (1"

abbrev parsed : ParsedLine
parsed = record { level = info; uptime_ms = 4012; tag = codes "wifi"; message = codes "up: 3" }

parse_esp_log_line-coloured : parse_esp_log_line coloured ≡ some parsed
unfolding parse_esp_log_line trim_end trim_reset find_m leading_ansi_length skip_digits number_at
    find_colon shape_at shape_of find_shape level_from_char is_level_char bytes_eq
parse_esp_log_line-coloured = refl

parse_esp_log_line-none : parse_esp_log_line (codes "I (x) wifi: up") ≡ none
unfolding parse_esp_log_line trim_end trim_reset find_m leading_ansi_length skip_digits number_at
    find_colon shape_at shape_of find_shape level_from_char is_level_char bytes_eq
parse_esp_log_line-none = refl

parse_esp_log_line_fast-agrees_example :
    parse_esp_log_line_fast buffer 34 zero_record
    ≡ record_of zero_record (parse_esp_log_line (take 34 buffer))
parse_esp_log_line_fast-agrees_example =
    parse_esp_log_line_fast-agrees buffer 34 zero_record (omega arith)

parse_esp_log_line-in_colour_example :
    parse_esp_log_line
      (in_colour (codes "0;33") (esp_line b'W' 4012 (codes "wifi") (codes "up: 3")) (codes "\n"))
    ≡ some (record {
      level = level_from_char b'W';
      uptime_ms = 4012;
      tag = codes "wifi";
      message = codes "up: 3";
    })
unfolding is_level_char
parse_esp_log_line-in_colour_example =
    parse_esp_log_line-in_colour b'W' 4012 (codes "wifi") (codes "up: 3") (codes "0;33")
      (codes "\n") refl (omega arith) (omega arith) (refl, (refl, (refl, (refl, tt))))
      (refl, (refl, (refl, (refl, tt)))) (refl, tt)
