-- ===== src/Etl/Open.antt =====
-- `etl_file::open` of snail/etl/etl_file.cpp, and the record it reads
-- (snail/etl/parser/records/kernel/header.hpp).
use snail_server.Common.{
  ℕ, ◌+◌, ◌-◌, ◌*◌, ◌/◌, ◌%◌, ◌^◌, Bool, not, ◌&&◌, ◌||◌, List, ◌==◌, ltb, length, if◌then◌else◌,
}
use snail_server.Common.Bytes.{extract}
use snail_server.Common.Run.{Run, finished, throws, ◌>>=◌, in_bounds}
use snail_server.Xca.{CompressionFormat, uncompressed, lznt1, xpress, xpress_huff, other_format}
use snail_server.Etl.Span.{subspan_from}
use snail_server.Common.Stream.{FileStream, read_stream, seekg}
use snail_server.Etl.Buffer.{
  BufferHeader, HeaderData, read_buffer_header, header_static_size, is_compressed,
}
use snail_server.Etl.Trace.{
  EtlError, insufficient_header_size, invalid_header_type, header_compressed, invalid_header_size,
  insufficient_buffer_size, invalid_trace_marker, invalid_trace_header_type, invalid_initial_record,
}

abbrev pub compression_format_of : ℕ → CompressionFormat
compression_format_of value =
    if value == 0
    then uncompressed
    else if value == 2
    then lznt1
    else if value == 3
    then xpress
    else if value == 4
    then xpress_huff
    else other_format value

abbrev pub has_flag : ℕ → ℕ → Bool
has_flag flags index = not (flags / 2 ^ index % 2 == 0)

abbrev min_buffer_size : ℕ
min_buffer_size = header_static_size + 32

-- The tests on the header of the first buffer.
abbrev pub check_first : BufferHeader → Run EtlError BufferHeader
check_first header =
    if not (header.buffer_type == 4)
    then throws invalid_header_type
    else if is_compressed header
    then throws header_compressed
    else if ltb header.buffer_size min_buffer_size
    then throws invalid_header_size
    else finished header

-- The flags 0x80, 0x40 and 0x10.
abbrev pub check_marker : ℕ → ℕ → Run EtlError ℕ
check_marker flags header_type =
    if not (has_flag flags 7) || not (has_flag flags 6) || has_flag flags 4
    then throws invalid_trace_marker
    else if not (header_type == 1) && not (header_type == 2)
    then throws invalid_trace_header_type
    else finished header_type

abbrev pub check_initial : ℕ → ℕ → ℕ → Run EtlError ℕ
check_initial group type version =
    if not (group == 0) || not (type == 0) || not (version == 2)
    then throws invalid_initial_record
    else finished version

abbrev pub is_compressing : ℕ → Bool
is_compressing log_file_mode = has_flag log_file_mode 26

-- The fields of the record; some stand behind two pointers. The times are 100 nanosecond intervals.
abbrev pub read_header_data : BufferHeader → ℕ → List ℕ → Run EtlError HeaderData
read_header_data first system_time record_bytes = do
  pointer_size ← in_bounds (extract 4 record_bytes 44)
  log_file_mode ← in_bounds (extract 4 record_bytes 32)
  start_time ← in_bounds (extract 8 record_bytes (248 + 2 * pointer_size))
  end_time ← in_bounds (extract 8 record_bytes 16)
  qpc_frequency ← in_bounds (extract 8 record_bytes (240 + 2 * pointer_size))
  number_of_processors ← in_bounds (extract 4 record_bytes 12)
  number_of_buffers ← in_bounds (extract 4 record_bytes 36)
  buffer_size ← in_bounds (extract 4 record_bytes 0)
  finished (record {
    start_time = start_time;
    end_time = end_time;
    start_time_qpc_ticks = system_time;
    qpc_frequency = qpc_frequency;
    pointer_size = pointer_size;
    number_of_processors = number_of_processors;
    number_of_buffers = number_of_buffers;
    buffer_size = buffer_size;
    log_file_mode = log_file_mode;
    compression_format =
        if is_compressing log_file_mode
        then compression_format_of (first.state % 2 ^ 16)
        else uncompressed;
  })

-- The buffer behind its header.
abbrev pub read_first : BufferHeader → List ℕ → Run EtlError HeaderData
read_first header buffer = do
  header_type ← in_bounds (extract 1 buffer 2)
  flags ← in_bounds (extract 1 buffer 3)
  checked ← check_marker flags header_type
  group ← in_bounds (extract 1 buffer 7)
  type ← in_bounds (extract 1 buffer 6)
  version ← in_bounds (extract 2 buffer 0)
  initial ← check_initial group type version
  system_time ← in_bounds (extract 8 buffer 16)
  record_bytes ← in_bounds (subspan_from buffer 32)
  read_header_data header system_time record_bytes

abbrev pub read_to_start :
    BufferHeader → List ℕ → FileStream → Run EtlError (HeaderData × FileStream)
read_to_start header buffer stream = do
  file_header ← read_first header buffer
  finished (file_header, seekg 0 stream)

-- A file whose first buffer is cut off fails: `tellg` is -1 then.
abbrev pub read_first_buffer : BufferHeader → FileStream → Run EtlError (HeaderData × FileStream)
read_first_buffer header stream =
    let size = header.buffer_size - header_static_size in
    let rest = read_stream size stream in
    if ltb (length rest.0) size
    then throws insufficient_buffer_size
    else read_to_start header rest.0 rest.1

unfoldable pub open_file : FileStream → Run EtlError (HeaderData × FileStream)
open_file stream =
    let first = read_stream header_static_size stream in
    if ltb (length first.0) header_static_size then throws insufficient_header_size else (do
      header ← read_buffer_header first.0
      checked ← check_first header
      read_first_buffer checked first.1)
