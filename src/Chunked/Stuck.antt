-- ===== src/Chunked/Stuck.antt =====
-- A record that is cut off at the end of the data.
use snail_server.Common.{
  ℕ, ◌+◌, ◌-◌, ◌≤◌, ◌<◌, ◌≡◌, refl, ◌∙◌, ap, ap₂, true, false, not, [], ◌++◌, ◌==◌, ltb, arith,
  length, take, drop, length-append, length-take, length-drop, if◌then◌else◌, ◌||◌,
}
use snail_server.Common.Run.{finished, throws}
use snail_server.Chunked.{
  ChunkedReader, read_next_chunk, retrieve_data, done, chunk_remaining_bytes, keep_left_over,
  keep_going, remaining_data_bytes, store_chunk, read_chunk, chunk_has_more_data, invalid_state,
  chunk_bytes_to_read,
}
use snail_server.Chunked.Laws.{read_stream-good, lesser-cases, length-move_to_start}

-- Bytes are left in the chunk, but too few, and the stream has no more.
pub record IsStuck (r : ChunkedReader) : Type 0 where
  pub within : r.current_chunk_size ≤ length r.chunk_buffer
  pub left : 0 < chunk_remaining_bytes r
  pub all : r.total_processed_size + r.current_chunk_size ≡ r.total_size
  pub healthy : r.stream.failed ≡ false
  pub exhausted : r.is_chunk_exhausted ≡ true

-- At the end of the data, where a record needs more bytes than are left, `keep_going` says that there is
-- more, and the reader is in the same situation again as soon as the record is asked for once more.
pub keep_going-IsStuck :
    (size : ℕ) (r : ChunkedReader)
    → IsStuck r
    → chunk_remaining_bytes r < size
    → (r' : ChunkedReader) × (keep_going r ≡ finished (true, r'))
      × (chunk_remaining_bytes r' ≡ chunk_remaining_bytes r)
      × IsStuck (retrieve_data size false r').1
unfolding keep_going read_next_chunk retrieve_data
keep_going-IsStuck size r h k =
    let left = chunk_remaining_bytes r in
    let moved = keep_left_over r in
    let going : done r ≡ false = ground (arith, h.left, h.all) in
    let some_left : (remaining_data_bytes moved == 0) ≡ false = ground (arith, h.left, h.all) in
    let none_new : remaining_data_bytes moved - left ≡ 0 = omega (arith, h.left, h.all) in
    let none_read : chunk_bytes_to_read left moved ≡ 0 = omega (
      arith,
      none_new,
      lesser-cases (remaining_data_bytes moved - left) (length moved.chunk_buffer - left),
    ) in
    let e1 : keep_going r ≡ read_next_chunk r =
      ap₂
        (λ d x.
          if d
          then finished (false, r)
          else (if x || not (chunk_has_more_data r) then read_next_chunk r else finished (true, r)))
        going h.exhausted in
    let e2 : read_next_chunk r ≡ read_chunk left (chunk_bytes_to_read left moved) moved =
      ap₂
        (λ z f.
          if z
          then finished (false, moved)
          else (if f
              then throws invalid_state
              else read_chunk left (chunk_bytes_to_read left moved) moved))
        some_left h.healthy in
    let e3 = ap (λ n. read_chunk left n moved) none_read in
    let e4 = ap (λ g. store_chunk left 0 g moved) (read_stream-good 0 r.stream h.healthy) in
    let r' : ChunkedReader = record moved {
      stream = record r.stream { position = r.stream.position + 0 };
      chunk_buffer = take left moved.chunk_buffer ++ [] ++ drop (left + 0) moved.chunk_buffer;
      current_chunk_size = 0 + left;
      chunk_processed_size = 0;
      is_chunk_exhausted = false;
    } in
    let few : ltb (chunk_remaining_bytes r') size ≡ true = ground arith in
    let small : left ≤ length r.chunk_buffer = omega (arith, h.within) in
    let lm = length-move_to_start left r.chunk_buffer small in
    let all_there : length r'.chunk_buffer ≡ length r.chunk_buffer = omega (
      arith,
      length-append (take left moved.chunk_buffer ++ []) (drop (left + 0) moved.chunk_buffer),
      length-append {0} (take left moved.chunk_buffer) [],
      length-take left moved.chunk_buffer,
      length-drop (left + 0) moved.chunk_buffer,
      lm,
    ) in
    (
      r',
      e1 ∙ e2 ∙ e3 ∙ e4,
      omega arith,
      rw few (record {
        within = omega (arith, all_there, small);
        left = omega (arith, h.left);
        all = omega (arith, h.all, h.left);
        healthy = h.healthy;
        exhausted = refl;
      }),
    )
