-- ===== src/Chunked/Healthy.antt =====
-- A reader of a section that the file has to its end: no read fails.
use snail_server.Common.{
  ℕ, ◌+◌, ◌-◌, ◌≤◌, ◌<◌, ◌≡◌, refl, ◌∙◌, ap, ap₂, Bool, true, false, not, ◌||◌, [], ◌++◌, ◌==◌, ltb,
  arith, length, take, drop, length-append, length-take, length-drop, if◌then◌else◌, Bool-cases,
  inl, inr, ◌⊎◌,
}
use snail_server.Common.Run.{Run, finished, throws, Ensures-finished}
use snail_server.Chunked.{
  ReaderError, ChunkedReader, read_next_chunk, done, chunk_remaining_bytes, keep_left_over,
  keep_going, remaining_data_bytes, store_chunk, read_chunk, chunk_has_more_data,
  chunk_bytes_to_read, invalid_state, could_not_read, lesser,
}
use snail_server.Chunked.Laws.{
  IsReading, IsNext, rest, unread, pending, upcoming, read_stream-good, lesser-cases,
  length-move_to_start, read_next_chunk-IsNext,
}

pub record IsHealthy (chunk : ℕ) (r : ChunkedReader) : Type 0 where
  pub reading : IsReading r
  pub healthy : r.stream.failed ≡ false
  pub there : r.stream.position + unread r ≤ length r.stream.content
  pub room : length r.chunk_buffer ≡ chunk

-- The reader after a chunk.
abbrev pub after_chunk : ChunkedReader → ChunkedReader
after_chunk r =
    let left = chunk_remaining_bytes r in
    let moved = keep_left_over r in
    let count = chunk_bytes_to_read left moved in
    record moved {
      stream = record r.stream { position = r.stream.position + count };
      chunk_buffer =
          take left moved.chunk_buffer
          ++ take count (drop r.stream.position r.stream.content)
          ++ drop (left + count) moved.chunk_buffer;
      current_chunk_size = count + left;
      chunk_processed_size = 0;
      is_chunk_exhausted = false;
    }

count_there :
    (chunk : ℕ) (r : ChunkedReader)
    → IsHealthy chunk r
    → chunk_bytes_to_read (chunk_remaining_bytes r) (keep_left_over r)
      ≡ lesser (unread r) (chunk - chunk_remaining_bytes r)
count_there chunk r h =
    let left = chunk_remaining_bytes r in
    let d : remaining_data_bytes (keep_left_over r) - left ≡ unread r =
      omega (arith, h.reading.processed, h.reading.in_total) in
    ap₂ lesser d (
      ap (λ n. n - left)
        (length-move_to_start left r.chunk_buffer
            (omega (arith, h.reading.processed, h.reading.within))
          ∙ h.room))

length-got :
    (chunk : ℕ) (r : ChunkedReader) (count : ℕ)
    → IsHealthy chunk r
    → count ≤ unread r
    → length (take count (drop r.stream.position r.stream.content)) ≡ count
length-got chunk r count h k = omega (
  arith,
  h.there,
  length-take count (drop r.stream.position r.stream.content),
  length-drop r.stream.position r.stream.content,
)

-- Where anything is left of the section, the next chunk is read.
pub read_next_chunk-after :
    (chunk : ℕ) (r : ChunkedReader)
    → IsHealthy chunk r
    → (remaining_data_bytes (keep_left_over r) == 0) ≡ false
    → read_next_chunk r ≡ finished (true, after_chunk r)
unfolding read_next_chunk
read_next_chunk-after chunk r h some_left =
    let left = chunk_remaining_bytes r in
    let moved = keep_left_over r in
    let count = chunk_bytes_to_read left moved in
    let got = take count (drop r.stream.position r.stream.content) in
    let small : count ≤ unread r =
      omega (arith, count_there chunk r h, lesser-cases (unread r) (chunk - left)) in
    let l : length got ≡ count = length-got chunk r count h small in
    let all : (length got == count) ≡ true = ground arith in
    let enough : ltb (length got) count ≡ false = ground arith in
    ap₂
      (λ z f.
        if z
        then finished (false, moved)
        else (if f then throws invalid_state else read_chunk left count moved))
      some_left h.healthy
    ∙ ap (λ g. store_chunk left count g moved) (read_stream-good count r.stream h.healthy)
    ∙ ap₂
        (λ short a.
          if not a
          then throws could_not_read
          else finished (
            true,
            record moved {
              stream =
                  if short
                  then record r.stream { failed = true }
                  else record r.stream { position = r.stream.position + count };
              chunk_buffer =
                  take left moved.chunk_buffer ++ got ++ drop (left + count) moved.chunk_buffer;
              current_chunk_size = count + left;
              chunk_processed_size = 0;
              is_chunk_exhausted = false;
            },
          ))
        enough all

-- What is still to come is as long as the sizes say.
pub length-rest :
    (chunk : ℕ) (r : ChunkedReader)
    → IsHealthy chunk r
    → length (rest r) ≡ chunk_remaining_bytes r + unread r
length-rest chunk r h = omega (
  arith,
  h.there,
  h.reading.within,
  h.reading.processed,
  length-append (pending r) (upcoming r),
  length-take (chunk_remaining_bytes r) (drop r.chunk_processed_size r.chunk_buffer),
  length-drop r.chunk_processed_size r.chunk_buffer,
  length-take (unread r) (drop r.stream.position r.stream.content),
  length-drop r.stream.position r.stream.content,
)

-- A chunk that was just read: it is full, or has all that is left.
pub record IsFresh (chunk : ℕ) (r r' : ChunkedReader) : Type 0 where
  pub healthy : IsHealthy chunk r'
  pub same_rest : rest r' ≡ rest r
  pub enough : (chunk ≤ chunk_remaining_bytes r') ⊎ (length (rest r) ≤ chunk_remaining_bytes r')

after_chunk-IsFresh :
    (chunk : ℕ) (r : ChunkedReader)
    → IsHealthy chunk r
    → (r.chunk_processed_size ≡ r.current_chunk_size) ⊎ (0 < unread r)
    → (remaining_data_bytes (keep_left_over r) == 0) ≡ false
    → IsFresh chunk r (after_chunk r)
after_chunk-IsFresh chunk r h m some_left =
    let left = chunk_remaining_bytes r in
    let moved = keep_left_over r in
    let count = chunk_bytes_to_read left moved in
    let got = take count (drop r.stream.position r.stream.content) in
    let c = count_there chunk r h in
    let small : count ≤ unread r = omega (arith, c, lesser-cases (unread r) (chunk - left)) in
    let next =
      Ensures-finished (IsNext r) (read_next_chunk r) (true, after_chunk r)
        (read_next_chunk-IsNext r h.reading m) (read_next_chunk-after chunk r h some_left) in
    let lm : length moved.chunk_buffer ≡ length r.chunk_buffer =
      length-move_to_start left r.chunk_buffer
        (omega (arith, h.reading.processed, h.reading.within)) in
    let fits : count ≤ chunk - left = omega (arith, c, lesser-cases (unread r) (chunk - left)) in
    record {
      healthy = record {
        reading = next.0;
        healthy = h.healthy;
        there = omega (arith, h.there, small, h.reading.processed, h.reading.in_total);
        room = omega (
          arith,
          lm,
          h.room,
          h.reading.processed,
          h.reading.within,
          fits,
          length-got chunk r count h small,
          length-append (take left moved.chunk_buffer ++ got)
              (drop (left + count) moved.chunk_buffer),
          length-append (take left moved.chunk_buffer) got,
          length-take left moved.chunk_buffer,
          length-drop (left + count) moved.chunk_buffer,
        );
      };
      same_rest = next.1;
      enough = elim (lesser-cases (unread r) (chunk - left)) [
        | inl (e, _) ↦ inr (omega (arith, length-rest chunk r h, c, e))
        | inr (e, _) ↦ inl (omega (arith, c, e, h.room, h.reading.within, h.reading.processed))
      ];
    }

-- What `keep_going` comes to: the end, the same chunk, or a fresh one.
pub data Going (chunk : ℕ) (r : ChunkedReader) : Type 0 where
  at_end : (r' : ChunkedReader) → keep_going r ≡ finished (false, r') → rest r ≡ [] → Going chunk r
  same_chunk :
      keep_going r ≡ finished (true, r)
      → r.is_chunk_exhausted ≡ false
      → 0 < chunk_remaining_bytes r
      → Going chunk r
  fresh_chunk :
      keep_going r ≡ finished (true, after_chunk r)
      → IsFresh chunk r (after_chunk r)
      → 0 < length (rest r)
      → Going chunk r

rest_nil : (r : ChunkedReader) → chunk_remaining_bytes r ≡ 0 → unread r ≡ 0 → rest r ≡ []
rest_nil r z u = rw (z, u) refl

next_chunk-Going :
    (chunk : ℕ) (r : ChunkedReader)
    → IsHealthy chunk r
    → (r.chunk_processed_size ≡ r.current_chunk_size) ⊎ (0 < unread r)
    → keep_going r ≡ read_next_chunk r
    → Going chunk r
unfolding read_next_chunk
next_chunk-Going chunk r h m e =
    let left = chunk_remaining_bytes r in
    let moved = keep_left_over r in
    elim (Bool-cases (remaining_data_bytes moved == 0)) [
      | inl z ↦
          at_end moved
            (e
              ∙ ap
                  (λ b.
                    if b
                    then finished (false, moved)
                    else (if r.stream.failed
                        then throws invalid_state
                        else read_chunk left (chunk_bytes_to_read left moved) moved))
                  z)
            (rest_nil r (ground (arith, h.reading.processed, h.reading.in_total))
              (ground (arith, h.reading.processed, h.reading.in_total)))
      | inr z ↦
          fresh_chunk (e ∙ read_next_chunk-after chunk r h z) (after_chunk-IsFresh chunk r h m z)
            (ground (arith, z, length-rest chunk r h, h.reading.processed, h.reading.in_total))
    ]

-- For a reader that is healthy, where a chunk counts as exhausted only if nothing of it is left, or more can be read.
pub keep_going-Going :
    (chunk : ℕ) (r : ChunkedReader)
    → IsHealthy chunk r
    → (r.is_chunk_exhausted ≡ true
        → (r.chunk_processed_size ≡ r.current_chunk_size) ⊎ (0 < unread r))
    → Going chunk r
unfolding keep_going
keep_going-Going chunk r h m =
    let step : Bool → Bool → Bool → Run ReaderError (Bool × ChunkedReader) = λ d x k.
      if d
      then finished (false, r)
      else (if x || not k then read_next_chunk r else finished (true, r)) in
    elim (Bool-cases (done r)) [
      | inl d ↦ at_end r (ap (λ b. step b r.is_chunk_exhausted (chunk_has_more_data r)) d) (
          rest_nil r (ground (arith, h.reading.processed, h.reading.in_total))
            (ground (arith, h.reading.processed, h.reading.in_total)))
      | inr d ↦ elim (Bool-cases r.is_chunk_exhausted) [
        | inl x ↦
            next_chunk-Going chunk r h (m x) (ap₂ (λ b y. step b y (chunk_has_more_data r)) d x)
        | inr x ↦ elim (Bool-cases (chunk_has_more_data r)) [
          | inl k ↦
              same_chunk
                (ap₂ (λ b y. step b y (chunk_has_more_data r)) d x ∙ ap (step false false) k) x
                (ground arith)
          | inr k ↦
              next_chunk-Going chunk r h (inl (ground (arith, h.reading.processed)))
                (ap₂ (λ b y. step b y (chunk_has_more_data r)) d x ∙ ap (step false false) k)
        ]
      ]
    ]
