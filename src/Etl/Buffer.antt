-- ===== src/Etl/Buffer.antt =====
-- snail/etl/parser/buffer.hpp and `read_buffer` of snail/etl/etl_file.cpp.
use snail_server.Common.{
  ℕ, ◌+◌, ◌-◌, ◌/◌, ◌%◌, ◌^◌, Bool, not, List, ◌++◌, Option, none, some, ◌==◌, ltb, leb, length,
  take, drop, if◌then◌else◌,
}
use snail_server.Common.Bytes.{extract}
use snail_server.Common.Run.{Run, finished, throws, out_of_bounds, out_of_fuel, ◌>>=◌, in_bounds}
use snail_server.Xca.{CompressionFormat, ms_xca_decompress}
use snail_server.Etl.Span.{minus_size, subspan}
use snail_server.Common.Stream.{FileStream, seekg, read_stream}
use snail_server.Etl.Trace.{
  EtlError, insufficient_header_size, offset_exceeds_maximum, offset_exceeds_buffer,
  decompression_failed, length_error, uncompressed_size_differs,
}

-- The fields of a `wmi_buffer_header_view` that are used.
pub record BufferHeader : Type 0 where
  pub buffer_size : ℕ
  pub saved_offset : ℕ
  pub sequence_number : ℕ
  pub processor_index : ℕ
  pub state : ℕ
  pub buffer_flag : ℕ
  pub buffer_type : ℕ

abbrev pub header_static_size : ℕ
header_static_size = 72

abbrev pub read_buffer_header : List ℕ → Run EtlError BufferHeader
read_buffer_header bytes = do
  buffer_size ← in_bounds (extract 4 bytes 0)
  saved_offset ← in_bounds (extract 4 bytes 4)
  sequence_number ← in_bounds (extract 8 bytes 24)
  processor_index ← in_bounds (extract 2 bytes 40)
  state ← in_bounds (extract 4 bytes 44)
  buffer_flag ← in_bounds (extract 2 bytes 52)
  buffer_type ← in_bounds (extract 2 bytes 54)
  finished (record {
    buffer_size = buffer_size;
    saved_offset = saved_offset;
    sequence_number = sequence_number;
    processor_index = processor_index;
    state = state;
    buffer_flag = buffer_flag;
    buffer_type = buffer_type;
  })

abbrev pub is_compressed : BufferHeader → Bool
is_compressed header = not (header.buffer_flag / 2 ^ 6 % 2 == 0)

-- The fields of `etl_file::header_data`.
pub record HeaderData : Type 0 where
  pub start_time : ℕ
  pub end_time : ℕ
  pub start_time_qpc_ticks : ℕ
  pub qpc_frequency : ℕ
  pub pointer_size : ℕ
  pub number_of_processors : ℕ
  pub number_of_buffers : ℕ
  pub buffer_size : ℕ
  pub log_file_mode : ℕ
  pub compression_format : CompressionFormat

-- `processor_data` without the list of its files' buffers; `buffer_data` is its vector, and the
-- payload a part of that.
pub record BufferInfo : Type 0 where
  pub buffer_data : List ℕ
  pub payload_buffer : List ℕ
  pub current_payload_offset : ℕ

-- Bytes that are written into a vector; behind its end is undefined.
abbrev pub write_at : ℕ → List ℕ → List ℕ → Option (List ℕ)
write_at offset bytes vector =
    if leb (offset + length bytes) (length vector)
    then some (take offset vector ++ bytes ++ drop (offset + length bytes) vector)
    else none

abbrev pub payload_size : BufferHeader → ℕ
payload_size header = minus_size header.saved_offset header_static_size

-- An exception of the decompression passes through.
abbrev pub decompress : List ℕ → ℕ → CompressionFormat → Run EtlError (List ℕ)
decompress input size format = elim (ms_xca_decompress input size format) [
  | finished bytes ↦ finished bytes
  | throws e ↦ throws decompression_failed
  | out_of_bounds ↦ out_of_bounds
  | out_of_fuel ↦ out_of_fuel
]

abbrev pub fill_compressed : HeaderData → BufferHeader → List ℕ → List ℕ → Run EtlError BufferInfo
fill_compressed file_header header rest vector = do
  payload ← in_bounds (subspan vector header_static_size (payload_size header))
  bytes ← decompress rest (length payload) file_header.compression_format
  written ← in_bounds (write_at header_static_size bytes vector)
  filled ← in_bounds (subspan written header_static_size (payload_size header))
  if length bytes == payload_size header
      then finished
          (record { buffer_data = written; payload_buffer = filled; current_payload_offset = 0 })
      else throws uncompressed_size_differs

abbrev pub fill : BufferHeader → List ℕ → List ℕ → Run EtlError BufferInfo
fill header rest vector = do
  written ← in_bounds (write_at header_static_size rest vector)
  payload ← in_bounds (subspan written header_static_size (payload_size header))
  finished (record { buffer_data = written; payload_buffer = payload; current_payload_offset = 0 })

-- `stale n` are the `n` bytes that the temporary vector holds from before where the file ends early.
module _ (stale : ℕ → List ℕ) where
  -- `resize` of the temporary vector throws where the size has wrapped around.
  abbrev pub read_compressed :
      HeaderData
      → BufferHeader
      → List ℕ
      → ℕ
      → List ℕ × FileStream
      → Run EtlError (BufferInfo × FileStream)
  read_compressed file_header header vector remaining r =
      if ltb header.buffer_size header_static_size then throws length_error else (do
        info ← fill_compressed file_header header (r.0 ++ stale (remaining - length r.0)) vector
        finished (info, r.1))

  abbrev pub read_uncompressed :
      BufferHeader → List ℕ → List ℕ × FileStream → Run EtlError (BufferInfo × FileStream)
  read_uncompressed header vector r =
      if ltb header.buffer_size header.saved_offset
      then throws offset_exceeds_buffer
      else (do info ← fill header r.0 vector; finished (info, r.1))

  abbrev pub read_rest :
      HeaderData → BufferHeader → List ℕ → FileStream → Run EtlError (BufferInfo × FileStream)
  read_rest file_header header vector stream =
      let remaining = minus_size header.buffer_size header_static_size in
      if is_compressed header
      then read_compressed file_header header vector remaining (read_stream remaining stream)
      else read_uncompressed header vector (read_stream remaining stream)

  abbrev pub read_payload :
      HeaderData → List ℕ → List ℕ → FileStream → Run EtlError (BufferInfo × FileStream)
  read_payload file_header bytes vector stream = do
    header ← read_buffer_header bytes
    if ltb (length vector) header.saved_offset
        then throws offset_exceeds_maximum
        else read_rest file_header header vector stream

  -- The check of the size that was read for the payload is left out, as it never fails: the difference
  -- is taken on unsigned numbers, where -1 (of `tellg`) less more is a large number.
  unfoldable pub read_buffer :
      HeaderData → ℕ → List ℕ → FileStream → Run EtlError (BufferInfo × FileStream)
  read_buffer file_header start_pos vector stream =
      let r = read_stream header_static_size (seekg start_pos stream) in
      (do
        written ← in_bounds (write_at 0 r.0 vector)
        if ltb (length r.0) header_static_size
            then throws insufficient_header_size
            else read_payload file_header r.0 written r.1)
