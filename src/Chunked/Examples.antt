-- ===== src/Chunked/Examples.antt =====
-- Runs of the chunked reader.
use snail_server.Common.{◌≡◌, refl, true, false, [], ◌∷◌, inl, inr, arith}
use snail_server.Common.Run.{finished, Ensures}
use snail_server.Chunked.{
  ChunkedReader, read_next_chunk, retrieve_data, keep_going, chunk_remaining_bytes,
}
use snail_server.Chunked.Laws.{IsReading, IsNext, read_next_chunk-IsNext}
use snail_server.Chunked.Stuck.{IsStuck, keep_going-IsStuck}

-- Three bytes of the first chunk are processed, of six in all.
abbrev halfway : ChunkedReader
halfway = record {
  stream = record { content = 1 ∷ 2 ∷ 3 ∷ 4 ∷ 5 ∷ 6 ∷ 7 ∷ []; position = 4; failed = false };
  chunk_buffer = 1 ∷ 2 ∷ 3 ∷ 4 ∷ [];
  total_size = 6;
  total_processed_size = 0;
  current_chunk_size = 4;
  chunk_processed_size = 3;
  is_chunk_exhausted = true;
}

halfway-IsReading : IsReading halfway
halfway-IsReading = record {
  within = omega arith;
  processed = omega arith;
  in_total = omega arith;
  full = inr (inl refl);
}

read_next_chunk-IsNext_example : Ensures (IsNext halfway) (read_next_chunk halfway)
read_next_chunk-IsNext_example =
    read_next_chunk-IsNext halfway halfway-IsReading (inr (omega arith))

-- The fifth byte of five is left, in a buffer of four; the next chunk is the fourth byte.
abbrev at_end : ChunkedReader
at_end = record {
  stream = record { content = 1 ∷ 2 ∷ 3 ∷ 4 ∷ 5 ∷ []; position = 5; failed = false };
  chunk_buffer = 5 ∷ 2 ∷ 3 ∷ 4 ∷ [];
  total_size = 5;
  total_processed_size = 4;
  current_chunk_size = 1;
  chunk_processed_size = 0;
  is_chunk_exhausted = true;
}

keep_going-IsStuck_example :
    (r' : ChunkedReader) × (keep_going at_end ≡ finished (true, r'))
    × (chunk_remaining_bytes r' ≡ chunk_remaining_bytes at_end)
    × IsStuck (retrieve_data 2 false r').1
keep_going-IsStuck_example =
    keep_going-IsStuck 2 at_end
      (record {
        within = omega arith;
        left = omega arith;
        all = refl;
        healthy = refl;
        exhausted = refl;
      })
      (omega arith)
