-- ===== src/Etl/Examples.antt =====
-- Runs of the merge and of the reading of events.
use snail_server.Common.{
  ℕ, zero, suc, ◌≡◌, refl, subst, ◌≤◌, Bool, false, List, [], ◌∷◌, ◌++◌, none, some, arith,
}
use snail_server.Common.Bytes.{extract, little_endian}
use snail_server.Common.Run.{finished, Ensures}
use snail_server.Xca.{uncompressed}
use snail_server.Etl.Span.{subspan}
use snail_server.Common.Stream.{FileStream}
use snail_server.Etl.Trace.{TraceEvent, compact, event_time, process_next_trace}
use snail_server.Etl.Trace.Laws.{HasTime, process_next_trace-HasTime}
use snail_server.Etl.Buffer.{HeaderData}
use snail_server.Etl.Slots.{slots}
use snail_server.Etl.Process.{ProcessorData, advance, peak_next_event_time}
use snail_server.Etl.Merge.{Merge, process_events}
use snail_server.Etl.Merge.Schedule.{Plays, last, more, played, IsInOrder, IsSorted}
use snail_server.Etl.Merge.Order.{IsReady}
use snail_server.Etl.Merge.Results.{IsStarted, process_events-IsInOrder, process_events-played}

abbrev zeros_8 : List ℕ
zeros_8 = 0 ∷ 0 ∷ 0 ∷ 0 ∷ 0 ∷ 0 ∷ 0 ∷ 0 ∷ []

-- A compact event without user data.
abbrev compact_bytes : ℕ → List ℕ
compact_bytes t = 0 ∷ 0 ∷ 4 ∷ 192 ∷ 24 ∷ 0 ∷ 0 ∷ 0 ∷ zeros_8 ++ t ∷ 0 ∷ 0 ∷ 0 ∷ 0 ∷ 0 ∷ 0 ∷ 0 ∷ []

abbrev compact_event : ℕ → TraceEvent
compact_event t = record { kind = compact; header = compact_bytes t; user_data = [] }

process_next_trace-HasTime_example :
    Ensures (HasTime (compact_bytes 7)) (process_next_trace (compact_bytes 7))
process_next_trace-HasTime_example = process_next_trace-HasTime (compact_bytes 7)

one_event : process_next_trace (compact_bytes 7) ≡ finished (compact_event 7, 24)
unfolding process_next_trace extract little_endian subspan
one_event = refl

abbrev file_header : HeaderData
file_header = record {
  start_time = 0;
  end_time = 0;
  start_time_qpc_ticks = 0;
  qpc_frequency = 1;
  pointer_size = 8;
  number_of_processors = 2;
  number_of_buffers = 2;
  buffer_size = 200;
  log_file_mode = 0;
  compression_format = uncompressed;
}

abbrev no_stale : ℕ → List ℕ
no_stale n = []

abbrev holding : ℕ → List ℕ → ProcessorData
holding offset payload = record {
  current_buffer_info = record {
    buffer_data = [];
    payload_buffer = payload;
    current_payload_offset = offset;
  };
  remaining_buffers = [];
}

abbrev never : ℕ → Bool
never k = false

abbrev IsGood : FileStream → Type 0
IsGood stream = stream.failed ≡ false

abbrev time_of : TraceEvent → ℕ
time_of e = elim (extract 8 e.header 16) [ none ↦ 0 | some t ↦ t ]

abbrev first : ProcessorData
first = holding 0 (compact_bytes 1 ++ compact_bytes 5)

abbrev second : ProcessorData
second = holding 0 (compact_bytes 3)

abbrev two_queued : Merge slots (advance no_stale file_header) peak_next_event_time never
two_queued = record {
  event_queue = some 1 ∷ some 3 ∷ [];
  per_processor_data = first ∷ second ∷ [];
  file_stream = record { content = []; position = 0; failed = false };
  delivered = [];
  asked = 0;
}

abbrev two_schedules : ℕ → List TraceEvent
two_schedules zero = compact_event 1 ∷ compact_event 5 ∷ []
two_schedules (suc zero) = compact_event 3 ∷ []
two_schedules (suc (suc i)) = []

first-Plays :
    Plays (advance no_stale file_header) peak_next_event_time time_of IsGood first (two_schedules 0)
unfolding advance peak_next_event_time event_time process_next_trace extract little_endian subspan
first-Plays =
    more first (holding 24 (compact_bytes 1 ++ compact_bytes 5)) (compact_event 1)
      (compact_event 5 ∷ []) refl (λ w g. (w, refl, g))
      (last (holding 24 (compact_bytes 1 ++ compact_bytes 5)) (compact_event 5) refl
        (λ w g. (w, refl, g)))

second-Plays :
    Plays
      (advance no_stale file_header)
      peak_next_event_time
      time_of
      IsGood
      second
      (two_schedules 1)
unfolding advance peak_next_event_time event_time process_next_trace extract little_endian subspan
second-Plays = last second (compact_event 3) refl (λ w g. (w, refl, g))

abbrev Started : Merge slots (advance no_stale file_header) peak_next_event_time never → Type 0
Started =
    IsStarted slots (advance no_stale file_header) peak_next_event_time never time_of IsGood 2
      two_schedules

abbrev Ready : ℕ → ℕ → Type 0
Ready i t =
    IsReady slots (advance no_stale file_header) peak_next_event_time never time_of IsGood 2
      two_schedules two_queued i t (two_schedules i)

first-Ready : Ready 0 1
unfolding peak_next_event_time event_time extract little_endian
first-Ready = record { processor = first; stored = refl; plays = first-Plays; at_time = refl }

second-Ready : Ready 1 3
unfolding peak_next_event_time event_time extract little_endian
second-Ready = record { processor = second; stored = refl; plays = second-Plays; at_time = refl }

two-Ready : (i t : ℕ) → slots.waiting two_queued.event_queue i ≡ some t → Ready i t
two-Ready zero t h = subst (Ready 0) (ground arith) first-Ready
two-Ready (suc zero) t h = subst (Ready 1) (ground arith) second-Ready
two-Ready (suc (suc i)) t h = absurd (ground arith)

two_absent : (i : ℕ) → slots.waiting two_queued.event_queue i ≡ none → two_schedules i ≡ []
two_absent zero h = absurd (ground arith)
two_absent (suc zero) h = absurd (ground arith)
two_absent (suc (suc i)) h = refl

two-IsSorted : (i : ℕ) → IsSorted time_of (two_schedules i)
unfolding extract little_endian
two-IsSorted zero = (omega arith, (tt, tt))
two-IsSorted (suc zero) = (tt, tt)
two-IsSorted (suc (suc i)) = tt

two_inside : (i : ℕ) → 2 ≤ i → two_schedules i ≡ []
two_inside zero h = absurd (omega arith)
two_inside (suc zero) h = absurd (omega arith)
two_inside (suc (suc i)) h = refl

two-Started : Started two_queued
two-Started = record {
  nothing = refl;
  healthy = refl;
  ready = two-Ready;
  absent = two_absent;
  sorted = two-IsSorted;
  inside = two_inside;
}

process_events-IsInOrder_example :
    (m' : Merge slots (advance no_stale file_header) peak_next_event_time never) × (process_events
        slots
        (advance no_stale file_header)
        peak_next_event_time
        never
        4
        two_queued
      ≡ finished m')
    × IsInOrder time_of m'.delivered
process_events-IsInOrder_example =
    process_events-IsInOrder slots (advance no_stale file_header) peak_next_event_time never time_of
      IsGood 2 two_schedules 4 two_queued two-Started (omega arith)

process_events-played_example :
    (m' : Merge slots (advance no_stale file_header) peak_next_event_time never) × (process_events
        slots
        (advance no_stale file_header)
        peak_next_event_time
        never
        4
        two_queued
      ≡ finished m')
    × ((i : ℕ) → played i m'.delivered [] ≡ two_schedules i)
process_events-played_example =
    process_events-played slots (advance no_stale file_header) peak_next_event_time never time_of
      IsGood 2 two_schedules 4 two_queued two-Started (omega arith) (λ k. refl)
