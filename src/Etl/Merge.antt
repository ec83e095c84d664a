-- ===== src/Etl/Merge.antt =====
-- snail/etl/etl_file.cpp: the loop of `etl_file::process` that brings the events of all processors
-- into one order.
pub mod Schedule
pub mod Order
pub mod Loop
pub mod Turns
pub mod Results
use snail_server.Common.{
  ℕ, zero, suc, ◌+◌, Bool, true, false, List, [], ◌∷◌, Option, none, some, ltb, get_elem?, set,
  if◌then◌else◌,
}
use snail_server.Common.Run.{Run, finished, throws, out_of_bounds, out_of_fuel, ◌>>=◌, in_bounds}
use snail_server.Etl.Queue.{NextEventPriorityInfo, PriorityQueue}

-- What is called for an observer, newest first: the processor and its event.
pub record Delivered (V : Type 0) : Type 0 where
  pub from : ℕ
  pub event : V

-- `advance` processes the next event of a processor's buffer, and reads the next buffer at its end
-- (`none` if there is none), from the file stream that the processors share; `peek` is
-- `peak_next_event_time`.
module _ {E S V W : Type 0} (Q : PriorityQueue) (advance : W → S → Run E ((V × Option S) × W))
    (peek : S → Run E ℕ) (is_canceled : ℕ → Bool) where
  pub record Merge : Type 0 where
    pub event_queue : Q.Queue
    pub per_processor_data : List S
    pub file_stream : W
    pub delivered : List (Delivered V)
    -- How often the token was asked.
    pub asked : ℕ

  abbrev pub deliver : ℕ → V → W → Merge → Merge
  deliver i e w m = record m {
    file_stream = w;
    delivered = record { from = i; event = e } ∷ m.delivered;
  }

  -- Whether the next event of another processor is earlier.
  abbrev pub is_earlier : Option NextEventPriorityInfo → ℕ → Bool
  is_earlier none time = false
  is_earlier (some e) time = ltb e.next_event_time time

  abbrev pub wait : ℕ → ℕ → S → Merge → Merge
  wait i time s m = record m {
    event_queue = Q.push (record { next_event_time = time; processor_index = i }) m.event_queue;
    per_processor_data = set m.per_processor_data i s;
  }

  abbrev pub continue_with : (S → Merge → Run E Merge) → ℕ → Option S → Merge → Run E Merge
  continue_with next i none m = finished m
  continue_with next i (some s) m = do
    time ← peek s
    if is_earlier (Q.top m.event_queue) time then finished (wait i time s m) else next s m

  -- The inner loop: events of one processor.
  unfoldable pub extract_events : ℕ → ℕ → S → Merge → Run E Merge
  extract_events zero i s m = out_of_fuel
  extract_events (suc fuel) i s m = do
    r ← advance m.file_stream s
    continue_with (extract_events fuel i) i r.0.1 (deliver i r.0.0 r.1 m)

  abbrev pub pop_event : Merge → Merge
  pop_event m = record m { event_queue = Q.pop m.event_queue; asked = m.asked + 1 }

  abbrev pub turn :
      (ℕ → S → Merge → Run E Merge) → Option NextEventPriorityInfo → Merge → Run E Merge
  turn next none m = finished m
  turn next (some e) m =
      if is_canceled m.asked then finished (record m { asked = m.asked + 1 }) else (do
        s ← in_bounds (get_elem? m.per_processor_data e.processor_index)
        next e.processor_index s (pop_event m))

  -- The outer loop: the processor with the earliest event.
  unfoldable pub process_events : ℕ → Merge → Run E Merge
  process_events zero m = out_of_fuel
  process_events (suc fuel) m =
      turn (λ i s m'. extract_events (suc fuel) i s m' >>= process_events fuel)
        (Q.top m.event_queue) m
