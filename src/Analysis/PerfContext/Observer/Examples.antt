-- ===== src/Analysis/PerfContext/Observer/Examples.antt =====
-- A data section with an event that no handler gets and a sample.
use snail_server.Common.{◌≡◌, refl, arith, false, List, [], ◌∷◌, ◌++◌, none, some}
use snail_server.Analysis.PerfContext.{empty_context, PerfEvent, sample_event}
use snail_server.Analysis.PerfContext.Events.{handle_events}
use snail_server.Analysis.PerfContext.Observer.{
  context_observer, events_of, read_data_section-handle_events,
}
use snail_server.Common.Bytes.{little, extract, little_endian}
use snail_server.Common.Run.{finished, in_bounds}
use snail_server.Common.Stream.{FileStream}
use snail_server.PerfData.Attributes.{
  EventAttributes, EventAttributesDatabase, get_event_attributes,
}
use snail_server.PerfData.Flags.{test}
use snail_server.PerfData.Header.{SectionData, FileHeaderData}
use snail_server.PerfData.Process.{read_data_section}
use snail_server.PerfData.Reading.{Chunks}
use snail_server.PerfData.Records.{parse_event, extract_move_if, extract_list_if}
use snail_server.PerfData.Sections.{Event, IsEvent, state_of}

-- The format is a thread and a time.
abbrev cycles : EventAttributes
cycles = record {
  type = 0;
  sample_period_freq = 100;
  sample_format = 6;
  read_format = 0;
  flags = 0;
  precise_ip = 0;
  name = none;
  address = 0;
}

abbrev one_entry : EventAttributesDatabase
one_entry = record {
  all_attributes = cycles ∷ [];
  id_to_attributes = [];
  id_offset = none;
  id_back_offset = none;
}

abbrev round_end : Event
round_end = record {
  header = record { type = 68; misc = 0; size = 8 };
  bytes = 68 ∷ 0 ∷ 0 ∷ 0 ∷ 0 ∷ 0 ∷ 8 ∷ 0 ∷ [];
}

abbrev sample : Event
sample = record {
  header = record { type = 9; misc = 0; size = 24 };
  bytes =
      9 ∷ 0 ∷ 0 ∷ 0 ∷ 0 ∷ 0 ∷ 24 ∷ 0 ∷ 3 ∷ 0 ∷ 0 ∷ 0 ∷ 4 ∷ 0 ∷ 0 ∷ 0 ∷ 50 ∷ 0 ∷ 0 ∷ 0 ∷ 0 ∷ 0 ∷ 0
      ∷ 0 ∷ [];
}

abbrev section_events : List Event
section_events = round_end ∷ sample ∷ []

abbrev sampled : List PerfEvent
sampled =
    sample_event
      (record { id = none; attributes = 0; tid = some 4; time = some 50; ip = none; ips = none })
    ∷ []

abbrev file : FileStream
file = record {
  content = 1 ∷ round_end.bytes ++ sample.bytes ++ 2 ∷ [];
  position = 0;
  failed = false;
}

abbrev section : SectionData
section = record { offset = 1; size = 32 }

abbrev header : FileHeaderData
header = record {
  byte_order = little;
  size = 104;
  attribute_size = 134;
  attributes = section;
  event_data = section;
  event_types = section;
  additional_features = 0;
}

abbrev chunks : Chunks
chunks = record {
  for_events =
      0 ∷ 0 ∷ 0 ∷ 0 ∷ 0 ∷ 0 ∷ 0 ∷ 0 ∷ 0 ∷ 0 ∷ 0 ∷ 0 ∷ 0 ∷ 0 ∷ 0 ∷ 0 ∷ 0 ∷ 0 ∷ 0 ∷ 0 ∷ 0 ∷ 0 ∷ 0 ∷ 0
      ∷ [];
  for_ids = [];
  for_metadata = [];
}

round_end-IsEvent : IsEvent little 24 round_end
unfolding extract little_endian
round_end-IsEvent = record {
  starts = refl;
  sized = refl;
  complete = omega arith;
  fits = omega arith;
}

sample-IsEvent : IsEvent little 24 sample
unfolding extract little_endian
sample-IsEvent = record { starts = refl; sized = refl; complete = omega arith; fits = omega arith }

parsed : events_of (λ ip. ip) little one_entry section_events ≡ finished sampled
unfolding get_event_attributes parse_event extract_move_if extract_list_if extract little_endian
    test
parsed = refl

read_data_section-handle_events_example :
    state_of (
      read_data_section
        (context_observer (λ ip. ip))
        chunks
        5
        (λ round. false)
        file
        header
        one_entry
        empty_context)
    ≡ in_bounds (handle_events (λ ip. ip) sampled empty_context)
read_data_section-handle_events_example =
    read_data_section-handle_events (λ ip. ip) section_events sampled chunks 5 file header one_entry
      empty_context refl (omega arith) refl (round_end-IsEvent, (sample-IsEvent, tt)) (omega arith)
      parsed
