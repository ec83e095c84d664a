-- ===== src/Chunked.antt =====
-- snail/common/chunked_reader.hpp: reading a part of a file in chunks.
pub mod Laws
pub mod Stuck
pub mod Healthy
pub mod Retrieved
mod Examples
use snail_server.Common.{
  ℕ, ◌+◌, ◌-◌, Bool, true, false, not, ◌||◌, List, [], ◌∷◌, ◌++◌, Option, none, some, ◌==◌, ltb,
  length, take, drop, if◌then◌else◌,
}
use snail_server.Common.Run.{Run, finished, throws, out_of_bounds, out_of_fuel}
use snail_server.Common.Stream.{FileStream, seekg, read_stream}

-- The texts of the `std::runtime_error`s that are thrown.
pub data ReaderError : Type 0 where
  failed_to_move : ReaderError
  invalid_state : ReaderError
  could_not_read : ReaderError

-- `current_chunk_data` is the start of the chunk buffer of this size.
pub record ChunkedReader : Type 0 where
  pub stream : FileStream
  pub chunk_buffer : List ℕ
  pub total_size : ℕ
  pub total_processed_size : ℕ
  pub current_chunk_size : ℕ
  pub chunk_processed_size : ℕ
  pub is_chunk_exhausted : Bool

-- The array starts with any bytes.
unfoldable pub new_reader : List ℕ → FileStream → ℕ → ℕ → Run ReaderError ChunkedReader
new_reader any_bytes stream offset desired_size =
    if stream.failed
    then throws failed_to_move
    else finished (record {
      stream = seekg offset stream;
      chunk_buffer = any_bytes;
      total_size = desired_size;
      total_processed_size = 0;
      current_chunk_size = 0;
      chunk_processed_size = 0;
      is_chunk_exhausted = true;
    })

-- The bytes of the chunk that are not processed; sizes are assumed not to be exceeded, as the asserts
-- say.
abbrev pub chunk_remaining_bytes : ChunkedReader → ℕ
chunk_remaining_bytes r = r.current_chunk_size - r.chunk_processed_size

-- The loop that copies the left over data to the start, from the end of the buffer.
abbrev pub move_to_start : ℕ → List ℕ → List ℕ
move_to_start count buffer = take count (drop (length buffer - count) buffer) ++ drop count buffer

abbrev pub keep_left_over : ChunkedReader → ChunkedReader
keep_left_over r = record r {
  chunk_buffer = move_to_start (chunk_remaining_bytes r) r.chunk_buffer;
  total_processed_size = r.total_processed_size + r.chunk_processed_size;
}

abbrev pub remaining_data_bytes : ChunkedReader → ℕ
remaining_data_bytes r = r.total_size - r.total_processed_size

abbrev pub lesser : ℕ → ℕ → ℕ
lesser a b = if ltb b a then b else a

-- What was read stands behind what was left over.
abbrev pub store_chunk :
    ℕ → ℕ → List ℕ × FileStream → ChunkedReader → Run ReaderError (Bool × ChunkedReader)
store_chunk left count got r =
    if not (length got.0 == count)
    then throws could_not_read
    else finished (
      true,
      record r {
        stream = got.1;
        chunk_buffer = take left r.chunk_buffer ++ got.0 ++ drop (left + count) r.chunk_buffer;
        current_chunk_size = count + left;
        chunk_processed_size = 0;
        is_chunk_exhausted = false;
      },
    )

abbrev pub read_chunk : ℕ → ℕ → ChunkedReader → Run ReaderError (Bool × ChunkedReader)
read_chunk left count r = store_chunk left count (read_stream count r.stream) r

abbrev pub chunk_bytes_to_read : ℕ → ChunkedReader → ℕ
chunk_bytes_to_read left r = lesser (remaining_data_bytes r - left) (length r.chunk_buffer - left)

abbrev pub next_chunk : ℕ → ChunkedReader → Run ReaderError (Bool × ChunkedReader)
next_chunk left r =
    if remaining_data_bytes r == 0
    then finished (false, r)
    else if r.stream.failed
    then throws invalid_state
    else read_chunk left (chunk_bytes_to_read left r) r

unfoldable pub read_next_chunk : ChunkedReader → Run ReaderError (Bool × ChunkedReader)
read_next_chunk r = next_chunk (chunk_remaining_bytes r) (keep_left_over r)

unfoldable pub retrieve_data : ℕ → Bool → ChunkedReader → List ℕ × ChunkedReader
retrieve_data size peek r =
    if ltb (chunk_remaining_bytes r) size then ([], record r { is_chunk_exhausted = true }) else (
      take size (drop r.chunk_processed_size r.chunk_buffer),
      if peek then r else record r { chunk_processed_size = r.chunk_processed_size + size },
    )

abbrev pub done : ChunkedReader → Bool
done r = r.total_processed_size == r.total_size

abbrev pub chunk_has_more_data : ChunkedReader → Bool
chunk_has_more_data r = ltb r.chunk_processed_size r.current_chunk_size

unfoldable pub keep_going : ChunkedReader → Run ReaderError (Bool × ChunkedReader)
keep_going r =
    if done r
    then finished (false, r)
    else if r.is_chunk_exhausted || not (chunk_has_more_data r)
    then read_next_chunk r
    else finished (true, r)
