-- ===== src/Log/Cbor.antt =====
-- components/croniot/src/log/CborWriter.h and telemetry/BatchEnvelope.h: records and batches on the
-- wire. A writer is its `buf_`. `writeDouble` copies the bits of a `double` and is left out.
pub mod Decode
use croniot_iot.Prelude.{
  ℕ, zero, suc, ◌+◌, ◌-◌, ◌*◌, ◌/◌, ◌%◌, ◌^◌, Bool, true, false, Option, none, some, List, [], ◌∷◌,
  ◌++◌, ltb, leb, if◌then◌else◌, length, codes, Bytes,
}
use croniot_iot.Log.Cursor.{Stream}
use croniot_iot.Log.Record.{LogRecord, level_code}
use croniot_iot.Log.PerStream.{stream_code}

-- `appendBigEndian`, by the bytes left.
unfoldable pub append_big_endian : ℕ → ℕ → Bytes → Bytes
append_big_endian value zero buf = buf
append_big_endian value (suc i) buf =
    append_big_endian value i (buf ++ (value / 2 ^ (8 * i) % 256) ∷ [])

-- `writeTypeAndLength`; the low five bits of a major type are 0, so that `|` adds.
unfoldable pub write_type_and_length : ℕ → ℕ → Bytes → Bytes
unfolding append_big_endian
write_type_and_length major n buf =
    if ltb n 24
    then buf ++ (major + n) ∷ []
    else if leb n 0xFF
    then buf ++ (major + 24) ∷ n ∷ []
    else if leb n 0xFFFF
    then append_big_endian n 2 (buf ++ (major + 25) ∷ [])
    else if leb n 0xFFFFFFFF
    then append_big_endian n 4 (buf ++ (major + 26) ∷ [])
    else append_big_endian n 8 (buf ++ (major + 27) ∷ [])

abbrev pub write_array_header : ℕ → Bytes → Bytes
write_array_header count buf = write_type_and_length 0x80 count buf

abbrev pub write_map_header : ℕ → Bytes → Bytes
write_map_header count buf = write_type_and_length 0xA0 count buf

abbrev pub write_unsigned : ℕ → Bytes → Bytes
write_unsigned value buf = write_type_and_length 0x00 value buf

-- `writeString`.
abbrev pub write_string : Bytes → Bytes → Bytes
write_string value buf = write_type_and_length 0x60 (length value) buf ++ value

-- `encodeLogRecord`.
unfoldable pub encode_log_record : LogRecord → Bytes
unfolding write_type_and_length
encode_log_record r = write_string r.message (
    write_string r.tag (
      write_unsigned (level_code r.level)
        (write_unsigned r.uptime_ms (write_unsigned r.seq (write_array_header 5 [])))))

-- `BatchHeader`.
pub record BatchHeader : Type 0 where
  pub version : ℕ
  pub boot_id : ℕ
  pub firmware_version : Bytes
  pub elf_sha256_prefix : Bytes
  pub now_ms : ℕ
  pub epoch_ms : Option ℕ
  pub dropped : ℕ

abbrev map_size : Option ℕ → ℕ
map_size none = 6
map_size (some ms) = 7

abbrev write_epoch : Option ℕ → Bytes → Bytes
write_epoch none buf = buf
write_epoch (some ms) buf = write_unsigned ms (write_string (codes "epoch_ms") buf)

-- `encodeBatchHeader`.
unfoldable pub encode_batch_header : BatchHeader → Bytes
unfolding write_type_and_length
encode_batch_header h =
    let buf = write_map_header (map_size h.epoch_ms) [] in
    let buf = write_unsigned h.version (write_string (codes "v") buf) in
    let buf = write_unsigned h.boot_id (write_string (codes "boot") buf) in
    let buf = write_string h.firmware_version (write_string (codes "fw") buf) in
    let buf = write_string h.elf_sha256_prefix (write_string (codes "elf") buf) in
    let buf = write_unsigned h.now_ms (write_string (codes "now_ms") buf) in
    let buf = write_epoch h.epoch_ms buf in
    write_unsigned h.dropped (write_string (codes "dropped") buf)

-- `encodeBatchEnvelope`.
unfoldable pub encode_batch_envelope : ℕ → Stream → ℕ → ℕ → Bytes → Bytes
unfolding write_type_and_length
encode_batch_envelope boot_id stream first_seq count raw_records =
    write_array_header count (
      write_unsigned count (
        write_unsigned first_seq
          (write_unsigned (stream_code stream) (write_unsigned boot_id (write_array_header 5 [])))))
    ++ raw_records
