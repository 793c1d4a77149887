-- ===== src/Log/LineParser/RoundTrip.antt =====
-- components/croniot/src/log/LineParser.cpp: a line of ESP-IDF as LineParser.h describes it.
use croniot_iot.Prelude.{ℕ, ◌^◌, ◌<◌, ◌≡◌, ap, ◌∙◌, true, some, length, Bytes}
use croniot_iot.Log.LineParser.{
  level_from_char, is_level_char, find_shape, parsed_line, parse_esp_log_line,
}
use croniot_iot.Log.LineParser.Loops.{IsWithout, AreEnds}
use croniot_iot.Log.LineParser.Parts.{esp_line, parsed_line-line}
use croniot_iot.Log.LineParser.Colour.{in_colour, bare_line-in_colour}

-- A line in the colours of `CONFIG_LOG_COLORS=y`, with its line ends, is read back: the letter's level, the
-- number in full, the tag and the message, for a letter of the five, a number of 64 bits, a tag that is not
-- empty and has no colon, a colour code without `m`, and any message.
pub parse_esp_log_line-in_colour :
    (c uptime_ms : ℕ) (tag message colour ends : Bytes)
    → is_level_char c ≡ true
    → uptime_ms < 2 ^ 64
    → 0 < length tag
    → IsWithout b':' tag
    → IsWithout b'm' colour
    → AreEnds ends
    → parse_esp_log_line (in_colour colour (esp_line c uptime_ms tag message) ends)
      ≡ some (record {
        level = level_from_char c;
        uptime_ms = uptime_ms;
        tag = tag;
        message = message;
      })
unfolding parse_esp_log_line
parse_esp_log_line-in_colour c uptime_ms tag message colour ends level fits named plain thin over =
    ap (λ l. parsed_line l (find_shape l 0 (length l)))
      (bare_line-in_colour colour (esp_line c uptime_ms tag message) ends thin over)
    ∙ parsed_line-line c uptime_ms tag message level fits named plain
