-- ===== src/Lib.antt =====
-- croniot-iot: the firmware library of a Croniot device (an ESP32).
--
-- The library (components/croniot/src) lets a device log, measure and be updated while its network
-- comes and goes. Its parts, as they interact:
-- - A log line goes through the rate limiter (log/RateLimiter.h), which collapses repeats, into a ring
--   in memory that survives a reset (log/NoinitRing.h, the twin of log/RingBuffer.h). The drain task
--   takes it from there into the journal.
-- - The journal (log/Journal.cpp) numbers the records of three streams (log/JournalCursor.h) and writes
--   them to flash as length-prefixed frames (log/FrameCodec.h), which it reads back in chunks
--   (log/FrameAccumulator.cpp) and counts at boot.
-- - The uplink (telemetry) picks the stream whose batch goes next (UplinkScheduler.h) and when a batch
--   is sent again (RetryPolicy.h). The server's acknowledgements move the cursor, and space pressure
--   moves the oldest record, with a gap reported for what no one had confirmed.
-- - Batches go out in CBOR (log/CborWriter.h) over the channels of the message bus (comm).
-- - A person sets the network on the console (provision/WifiSetupDialog.cpp); it is kept in a file that
--   JsonScanner.h reads back (provision/WifiCredentials.cpp).
-- - The update controller (ota) reads the server's manifest (OtaManifest.cpp, with JsonScanner.h) and
--   acts on the decisions of the policy (OtaPolicy.cpp) over a record that it keeps in NVS as a blob.
--
-- Files:
-- - Prelude: Boolean tests, list lemmas, machine words.
-- - Log/Frames: log/FrameCodec.h and log/FrameAccumulator.{h,cpp}; `readNextFrame` is
--   `read_next_frame`, and so on, in snake_case. Frames/Format is the format of a segment.
-- - Log/Ring: log/RingBuffer.h; Ring/Queue is the queue it promises; Ring/Noinit is
--   log/NoinitRing.{h,cpp}.
-- - Log/Cursor: log/JournalCursor.h. Log/Record: log/LogRecord.h and log/Level.h.
-- - Log/Cbor: log/CborWriter.h and telemetry/BatchEnvelope.h; Cbor/Decode is a decoder by RFC 8949.
-- - Log/Levels: log/LevelResolver.h and log/IncidentDetector.h. Log/WriteAccounting:
--   log/WriteAccounting.h. Log/PerStream: the arrays over the three streams.
-- - Comm/MessageBus: comm/MessageBus.cpp.
-- - Log/Journal: log/Journal.{h,cpp}. Journal and Journal/Streams have the state and the appends,
--   Journal/Boot what `init` does, Journal/Read `readFrom`, Journal/Reclaim `maybeReclaim`, and
--   Journal/Files the file names (with log/SegmentFiles.h). Journal/Stored is the invariant, for
--   the appends in Journal/Write, Rotate, Append and Budget. Log/Reclaimer:
--   log/SpaceReclaimer.{h,cpp}.
-- - Log/LineParser: log/LineParser.{h,cpp}, both parsers of a line of ESP-IDF.
-- - Log/RateLimiter: log/RateLimiter.h, with the router's calls (log/LogRouter.cpp) as `route`.
-- - Telemetry/Scheduler and Telemetry/Retry: telemetry/UplinkScheduler.h and RetryPolicy.h.
-- - Telemetry/Uplink: telemetry/Uplink.cpp; `serviceOnce` is `service_once`, and `onAck`, behind the
--   parser, is `on_ack`.
-- - Ota/Policy and Ota/Blob: ota/OtaPolicy.{h,cpp}. Ota/Manifest: ota/OtaManifest.{h,cpp}.
-- - Json: JsonScanner.h; Json/Object is the loop over an object's fields, which two clients write out.
-- - Provision/Credentials and Provision/Verdict: provision/WifiCredentials.{h,cpp}; Provision/Dialog and
--   Provision/Editor: provision/WifiSetupDialog.{h,cpp}.
-- - The Tests modules run the definitions and instantiate the theorems.
--
-- Conventions. State is passed explicitly: a member function takes the object's record and returns it
-- changed, behind the function's result if it has one. A text is its bytes. Unsigned arithmetic wraps
-- at its width (`u16`, `u32`, `u64`); `size_t` has 32 bits. Loops that are not structural run on fuel,
-- with `none` or `out_of_fuel` when it is spent; the callers give the length of the input, or one more,
-- and each round consumes a byte at least.
--
-- Parameters: the checksum of the chip's ROM (`esp_crc32_le`) is any function; `double` is a record of
-- operations with the laws that the code relies on (Telemetry/Retry/Float; Log/Reclaimer asks for none).
--
-- Files are a function from a segment's number to its bytes. Whether `fopen`, a write, `truncate`,
-- `remove` and the saving of an index work, and how much of a frame a failed write leaves, are inputs of
-- each operation (`Conditions`, `BootInput`, `ReclaimInput`, and `opens` of `read_from`), as is the time.
-- LittleFS commits an open file when it is closed: a crash (`IsCrash`) loses any number of the last
-- records of the open segment, and leaves the closed ones.
--
-- What `Journal::readFrom` returns is an input of each service of the uplink.
--
-- Not modelled: tasks, locks (a critical section is one step), drivers, NVS and the inside of the file system, the
-- network controllers, cJSON messages and console output.
mod Prelude
pub mod Json
pub mod Log
pub mod Comm
pub mod Ota
pub mod Provision
pub mod Telemetry
