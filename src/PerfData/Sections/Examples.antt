-- ===== src/PerfData/Sections/Examples.antt =====
-- A section of two events in a file with other bytes around it, read in chunks of eleven bytes.
use snail_server.Common.{ℕ, ◌≡◌, refl, arith, false, List, [], ◌∷◌, ◌++◌}
use snail_server.Common.Bytes.{little, extract, little_endian}
use snail_server.Common.Run.{Run, finished}
use snail_server.Common.Stream.{FileStream}
use snail_server.PerfData.Attributes.{PerfError}
use snail_server.PerfData.Header.{SectionData, FileHeaderData}
use snail_server.PerfData.Reading.{Chunks, EventHeader, read_events}
use snail_server.PerfData.Sections.{Event, IsEvent, state_of, call_for_all}
use snail_server.PerfData.Sections.Delivered.{read_events-call_for_all}

abbrev first_event : Event
first_event = record {
  header = record { type = 68; misc = 0; size = 8 };
  bytes = 68 ∷ 0 ∷ 0 ∷ 0 ∷ 0 ∷ 0 ∷ 8 ∷ 0 ∷ [];
}

abbrev second_event : Event
second_event = record {
  header = record { type = 82; misc = 1; size = 10 };
  bytes = 82 ∷ 0 ∷ 0 ∷ 0 ∷ 1 ∷ 0 ∷ 10 ∷ 0 ∷ 5 ∷ 6 ∷ [];
}

abbrev two_events : List Event
two_events = first_event ∷ second_event ∷ []

abbrev file : FileStream
file = record {
  content = 1 ∷ 2 ∷ first_event.bytes ++ second_event.bytes ++ 3 ∷ [];
  position = 0;
  failed = false;
}

abbrev section : SectionData
section = record { offset = 2; size = 18 }

abbrev header : FileHeaderData
header = record {
  byte_order = little;
  size = 104;
  attribute_size = 134;
  attributes = section;
  event_data = section;
  event_types = section;
  additional_features = 0;
}

abbrev chunks : Chunks
chunks = record {
  for_events = 0 ∷ 0 ∷ 0 ∷ 0 ∷ 0 ∷ 0 ∷ 0 ∷ 0 ∷ 0 ∷ 0 ∷ 0 ∷ [];
  for_ids = [];
  for_metadata = [];
}

-- Keeps the bytes of each event.
abbrev keep : EventHeader → List ℕ → List (List ℕ) → Run PerfError (List (List ℕ))
keep h bytes kept = finished (kept ++ bytes ∷ [])

first-IsEvent : IsEvent little 11 first_event
unfolding extract little_endian
first-IsEvent = record { starts = refl; sized = refl; complete = omega arith; fits = omega arith }

second-IsEvent : IsEvent little 11 second_event
unfolding extract little_endian
second-IsEvent = record { starts = refl; sized = refl; complete = omega arith; fits = omega arith }

read_events-call_for_all_example :
    state_of (read_events chunks 5 (λ round. false) file header section keep [])
    ≡ call_for_all keep two_events []
read_events-call_for_all_example =
    read_events-call_for_all keep two_events chunks 5 file header section [] refl (omega arith) refl
      (first-IsEvent, (second-IsEvent, tt)) (omega arith)
