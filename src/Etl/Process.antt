-- ===== src/Etl/Process.antt =====
-- `etl_file::process` of snail/etl/etl_file.cpp.
use snail_server.Common.{
  ℕ, zero, suc, ◌+◌, ◌*◌, ◌%◌, ◌^◌, Bool, List, [], ◌∷◌, ◌++◌, Option, none, some, ltb, leb, length,
  if◌then◌else◌,
}
use snail_server.Common.Run.{Run, finished, throws, ◌>>=◌, in_bounds}
use snail_server.Etl.Span.{subspan_from}
use snail_server.Common.Stream.{FileStream, seekg, read_stream}
use snail_server.Etl.Buffer.{
  BufferInfo, BufferHeader, HeaderData, read_buffer, read_buffer_header, header_static_size,
}
use snail_server.Etl.Trace.{
  EtlError, insufficient_header_size, invalid_sequence_number, unsupported_buffer_size,
  invalid_processor_index, TraceEvent, event_time, process_next_trace,
}
use snail_server.Etl.Queue.{PriorityQueue}
use snail_server.Etl.Merge.{Merge, Delivered, process_events}

-- The sequence number is of `std::int64_t`, kept as its 64 bits.
pub record FileBufferInfo : Type 0 where
  pub start_pos : ℕ
  pub sequence_number : ℕ

-- The remaining buffers stand back first, as they are taken from the back of the vector.
pub record ProcessorData : Type 0 where
  pub current_buffer_info : BufferInfo
  pub remaining_buffers : List FileBufferInfo

unfoldable pub peak_next_event_time : ProcessorData → Run EtlError ℕ
peak_next_event_time p = do
  payload ← in_bounds (
      subspan_from p.current_buffer_info.payload_buffer
        p.current_buffer_info.current_payload_offset)
  event_time payload

module _ (stale : ℕ → List ℕ) (header : HeaderData) where
  abbrev pub next_buffer :
      TraceEvent
      → FileStream
      → BufferInfo
      → List FileBufferInfo
      → Run EtlError ((TraceEvent × Option ProcessorData) × FileStream)
  next_buffer event stream info [] = finished ((event, none), stream)
  next_buffer event stream info (b ∷ rest) = do
    r ← read_buffer stale header b.start_pos info.buffer_data stream
    finished ((event, some (record { current_buffer_info = r.0; remaining_buffers = rest })), r.1)

  -- One event of a processor, and its next buffer behind the last one of a buffer.
  unfoldable pub advance :
      FileStream → ProcessorData → Run EtlError ((TraceEvent × Option ProcessorData) × FileStream)
  advance stream p = do
    payload ← in_bounds (
        subspan_from p.current_buffer_info.payload_buffer
          p.current_buffer_info.current_payload_offset)
    r ← process_next_trace payload
    let info = record p.current_buffer_info {
      current_payload_offset = p.current_buffer_info.current_payload_offset + r.1;
    }
    if leb (length info.payload_buffer) info.current_payload_offset
        then next_buffer r.0 stream info p.remaining_buffers
        else finished ((r.0, some (record p { current_buffer_info = info })), stream)

-- Of two numbers in 64 bits, as signed ones.
abbrev pub signed_gt : ℕ → ℕ → Bool
signed_gt a b = ltb ((b + 2 ^ 63) % 2 ^ 64) ((a + 2 ^ 63) % 2 ^ 64)

abbrev pub push_back :
    ℕ → FileBufferInfo → List (List FileBufferInfo) → Option (List (List FileBufferInfo))
push_back i b [] = none
push_back zero b (bs ∷ more) = some ((bs ++ b ∷ []) ∷ more)
push_back (suc i) b (bs ∷ more) = elim (push_back i b more) [
  | none ↦ none
  | some more' ↦ some (bs ∷ more')
]

-- `std::ranges::sort`: descending by the sequence number, so back first ascending. The order of equal
-- numbers is not specified.
abbrev pub insert_sorted : FileBufferInfo → List FileBufferInfo → List FileBufferInfo
insert_sorted b [] = b ∷ []
insert_sorted b (c ∷ more) =
    if signed_gt b.sequence_number c.sequence_number then c ∷ insert_sorted b more else b ∷ c ∷ more

unfoldable pub sort_buffers : List FileBufferInfo → List FileBufferInfo
sort_buffers [] = []
sort_buffers (b ∷ more) = insert_sorted b (sort_buffers more)

-- `none` where the processing was canceled.
abbrev pub Scanned : Type 0
Scanned = Option (FileStream × List (List FileBufferInfo))

module _ (header : HeaderData) where
  abbrev pub check_header : BufferHeader → Run EtlError BufferHeader
  check_header b =
      if signed_gt b.sequence_number header.number_of_buffers
      then throws invalid_sequence_number
      else if ltb header.buffer_size b.buffer_size
      then throws unsupported_buffer_size
      else if ltb header.number_of_processors b.processor_index
      then throws invalid_processor_index
      else finished b

  -- The first loop, over the headers of all buffers.
  unfoldable pub scan_buffer :
      FileStream
      → List (List FileBufferInfo)
      → Run EtlError (FileStream × List (List FileBufferInfo))
  scan_buffer stream per_processor =
      let r = read_stream header_static_size stream in
      if ltb (length r.0) header_static_size then throws insufficient_header_size else (do
        b ← read_buffer_header r.0
        c ← check_header b
        buffers ← in_bounds (
            push_back c.processor_index
              (record { start_pos = stream.position; sequence_number = c.sequence_number })
              per_processor)
        finished (seekg (stream.position + c.buffer_size) r.1, buffers))

  unfoldable pub scan_buffers :
      (ℕ → Bool) → ℕ → ℕ → FileStream → List (List FileBufferInfo) → Run EtlError Scanned
  scan_buffers is_canceled asked zero stream per_processor = finished (some (stream, per_processor))
  scan_buffers is_canceled asked (suc left) stream per_processor =
      if is_canceled asked
      then finished none
      else (scan_buffer stream per_processor >>= λ r.
          scan_buffers is_canceled (asked + 1) left r.0 r.1)

abbrev pub replicate {ℓ} : {A : Type ℓ} → ℕ → A → List A
replicate zero x = []
replicate (suc n) x = x ∷ replicate n x

module _ (Q : PriorityQueue) (stale : ℕ → List ℕ) (header : HeaderData)
    (is_canceled : ℕ → Bool) where
  abbrev pub State : Type 0
  State = Merge Q (advance stale header) peak_next_event_time is_canceled

  abbrev no_buffer : BufferInfo
  no_buffer = record { buffer_data = []; payload_buffer = []; current_payload_offset = 0 }

  abbrev add_processor : ProcessorData → State → State
  add_processor p m = record m { per_processor_data = m.per_processor_data ++ p ∷ [] }

  abbrev processor : BufferInfo → List FileBufferInfo → ProcessorData
  processor info rest = record { current_buffer_info = info; remaining_buffers = rest }

  abbrev push_next : ℕ → State → State
  push_next time m = record m {
    event_queue =
        Q.push (record { next_event_time = time; processor_index = length m.per_processor_data })
          m.event_queue;
  }

  -- The first buffer of a processor, whose buffers are sorted.
  unfoldable pub start_processor : List FileBufferInfo → State → Run EtlError State
  start_processor [] m = finished (add_processor (processor no_buffer []) m)
  start_processor (b ∷ rest) m = do
    r ← read_buffer stale header b.start_pos (replicate header.buffer_size 0) m.file_stream
    time ← peak_next_event_time (processor r.0 rest)
    finished (add_processor (processor r.0 rest) (push_next time (record m { file_stream = r.1 })))

  unfoldable pub start_processors : List (List FileBufferInfo) → State → Run EtlError (Option State)
  start_processors [] m = finished (some m)
  start_processors (buffers ∷ more) m =
      if is_canceled m.asked
      then finished none
      else (start_processor (sort_buffers buffers) (record m { asked = m.asked + 1 })
          >>= start_processors more)

  -- Every event takes 16 bytes at least of a buffer, of which none is larger than the header says.
  abbrev pub events_fuel : ℕ
  events_fuel = suc (header.number_of_buffers * suc header.buffer_size)

  abbrev merge_all : Option State → Run EtlError (List (Delivered TraceEvent))
  merge_all none = finished []
  merge_all (some m) = do
    m' ← process_events Q (advance stale header) peak_next_event_time is_canceled events_fuel m
    finished m'.delivered

  abbrev start_all : ℕ → Scanned → Run EtlError (List (Delivered TraceEvent))
  start_all asked none = finished []
  start_all asked (some r) = do
    m ← start_processors r.1 (record {
      event_queue = Q.empty;
      per_processor_data = [];
      file_stream = r.0;
      delivered = [];
      asked = asked;
    })
    merge_all m

  -- The events that the observer gets, newest first, with their processors.
  unfoldable pub process : FileStream → Run EtlError (List (Delivered TraceEvent))
  process stream = do
    r ←
        scan_buffers header is_canceled 0 header.number_of_buffers stream
          (replicate header.number_of_processors [])
    start_all header.number_of_buffers r
