-- ===== src/Etl/Trace.antt =====
-- snail/etl/parser/trace.hpp, snail/etl/parser/trace_headers and the functions of
-- snail/etl/etl_file.cpp that read one event from a buffer.
pub mod Laws
use snail_server.Common.{
  ℕ, ◌+◌, ◌-◌, ◌*◌, ◌/◌, ◌%◌, ◌^◌, Bool, ◌||◌, List, Option, none, some, ◌==◌, ltb, if◌then◌else◌,
}
use snail_server.Common.Bytes.{extract}
use snail_server.Common.Run.{Run, finished, throws, out_of_bounds, out_of_fuel, ◌>>=◌, in_bounds}
use snail_server.Etl.Span.{minus_size, subspan, subspan_from}

-- The texts of the `std::runtime_error`s that are thrown.
pub data EtlError : Type 0 where
  insufficient_header_size : EtlError
  invalid_header_type : EtlError
  header_compressed : EtlError
  invalid_header_size : EtlError
  insufficient_buffer_size : EtlError
  invalid_trace_marker : EtlError
  invalid_trace_header_type : EtlError
  invalid_initial_record : EtlError
  invalid_sequence_number : EtlError
  unsupported_buffer_size : EtlError
  invalid_processor_index : EtlError
  offset_exceeds_maximum : EtlError
  offset_exceeds_buffer : EtlError
  insufficient_payload_size : EtlError
  decompression_failed : EtlError
  length_error : EtlError
  uncompressed_size_differs : EtlError
  unsupported_trace_header_type : ℕ → EtlError

-- The views of trace headers.
pub data TraceHeader : Type 0 where
  system : TraceHeader
  compact : TraceHeader
  perfinfo : TraceHeader
  full_header : TraceHeader
  instance_header : TraceHeader
  event_header : TraceHeader

-- The cases of the switches: each view has a 32 bit and a 64 bit number.
abbrev pub trace_header_of : ℕ → Option TraceHeader
trace_header_of number =
    if number == 1 || number == 2
    then some system
    else if number == 3 || number == 4
    then some compact
    else if number == 16 || number == 17
    then some perfinfo
    else if number == 10 || number == 20
    then some full_header
    else if number == 11 || number == 21
    then some instance_header
    else if number == 18 || number == 19
    then some event_header
    else none

abbrev pub static_size : TraceHeader → ℕ
static_size system = 32
static_size compact = 24
static_size perfinfo = 16
static_size full_header = 48
static_size instance_header = 72
static_size event_header = 80

-- `system_time()` or `timestamp()`.
abbrev pub time_offset : TraceHeader → ℕ
time_offset perfinfo = 8
time_offset _ = 16

-- `packet().size()` or `size()`.
abbrev pub size_offset : TraceHeader → ℕ
size_offset system = 4
size_offset compact = 4
size_offset perfinfo = 4
size_offset _ = 0

-- What is passed to the observer.
pub record TraceEvent : Type 0 where
  pub kind : TraceHeader
  pub header : List ℕ
  pub user_data : List ℕ

abbrev pub supported : ℕ → Option TraceHeader → Run EtlError TraceHeader
supported number none = throws (unsupported_trace_header_type number)
supported number (some kind) = finished kind

-- `generic_trace_marker_view::header_type` and the switch.
abbrev pub switch_header : List ℕ → Run EtlError TraceHeader
switch_header buffer = do
  number ← in_bounds (extract 1 buffer 2)
  supported number (trace_header_of number)

-- Of the rest of a buffer.
unfoldable pub event_time : List ℕ → Run EtlError ℕ
event_time event_buffer = do
  kind ← switch_header event_buffer
  in_bounds (extract 8 event_buffer (time_offset kind))

-- A header of a known size, and the user data behind it.
abbrev pub process_trace : TraceHeader → ℕ → List ℕ → Run EtlError (TraceEvent × ℕ)
process_trace kind header_size payload = do
  header ← in_bounds (subspan payload 0 header_size)
  size ← in_bounds (extract 2 header (size_offset kind))
  user_data ← in_bounds (subspan payload header_size (minus_size size header_size))
  finished (record { kind = kind; header = header; user_data = user_data }, size)

abbrev pub peak_extended_size : List ℕ → Run EtlError ℕ
peak_extended_size buffer = do
  ext_header ← in_bounds (extract 2 buffer 0)
  finished ((if ext_header / 2 ^ 15 % 2 == 0 then 0 else 8) + ext_header / 2 ^ 8 % 8 * 8)

abbrev pub process_perfinfo_trace : List ℕ → Run EtlError (TraceEvent × ℕ)
process_perfinfo_trace payload = do
  start ← in_bounds (subspan payload 0 4)
  extended_size ← peak_extended_size start
  process_trace perfinfo (static_size perfinfo + extended_size) payload

abbrev pub process_kind : TraceHeader → List ℕ → Run EtlError (TraceEvent × ℕ)
process_kind perfinfo payload = process_perfinfo_trace payload
process_kind kind payload = process_trace kind (static_size kind) payload

-- Traces are aligned to blocks of 8 bytes.
abbrev pub aligned : ℕ → ℕ
aligned read_bytes =
    if ltb 0 (read_bytes % 8) then read_bytes + (8 - read_bytes % 8) else read_bytes

unfoldable pub process_next_trace : List ℕ → Run EtlError (TraceEvent × ℕ)
process_next_trace payload = do
  kind ← switch_header payload
  r ← process_kind kind payload
  finished (r.0, aligned r.1)
