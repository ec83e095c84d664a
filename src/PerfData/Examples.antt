-- ===== src/PerfData/Examples.antt =====
-- A database with two kinds of events, and events with ids.
use snail_server.Common.{ℕ, ◌≡◌, ◌↔◌, refl, arith, true, false, List, [], ◌∷◌, none, some, drop}
use snail_server.Common.AssocMap.{insert}
use snail_server.Common.Bytes.{little, little_endian, extract}
use snail_server.Common.Run.{finished, in_bounds}
use snail_server.PerfData.Attributes.{
  EventAttributes, EventAttributesDatabase, AttributeAndIds, empty_database, fill_database,
  add_entries, placed, validate, check_attributes, get_event_attributes, calculate_id_offset,
  calculate_id_back_offset, event_id, sample_type,
}
use snail_server.PerfData.Flags.{test}
use snail_server.PerfData.Ids.{parse_event-event_id}
use snail_server.PerfData.Owners.{get_event_attributes-owner, answer, owner, carries_id}
use snail_server.PerfData.Records.{
  extract_move_if, extract_move_back_if, extract_list_if, parse_event, parse_sample_id_back,
  SampleEvent, SampleId,
}
use snail_server.PerfData.Validated.{validate_iff, AreConsistent, with_offsets}

-- A thread, a time and an id, or an identifier and a time.
abbrev with_format : ℕ → EventAttributes
with_format format = record {
  type = 0;
  sample_period_freq = 100;
  sample_format = format;
  read_format = 0;
  flags = 262144;
  precise_ip = 0;
  name = none;
  address = 0;
}

abbrev cycles : AttributeAndIds
cycles = record { attributes = with_format 70; ids = 5 ∷ 6 ∷ [] }

abbrev branches : AttributeAndIds
branches = record {
  attributes = record (with_format 70) { sample_period_freq = 200; address = 1 };
  ids = 7 ∷ [];
}

abbrev two_entries : EventAttributesDatabase
two_entries = record {
  all_attributes = cycles.attributes ∷ branches.attributes ∷ [];
  id_to_attributes = (5, 0) ∷ (6, 0) ∷ (7, 1) ∷ [];
  id_offset = some 16;
  id_back_offset = some 8;
}

-- A sample with the id 7, in the order of its bytes.
abbrev sample_bytes : List ℕ
sample_bytes =
    9 ∷ 0 ∷ 0 ∷ 0 ∷ 0 ∷ 0 ∷ 32 ∷ 0 ∷ 3 ∷ 0 ∷ 0 ∷ 0 ∷ 4 ∷ 0 ∷ 0 ∷ 0 ∷ 50 ∷ 0 ∷ 0 ∷ 0 ∷ 0 ∷ 0 ∷ 0 ∷ 0
    ∷ 7 ∷ 0 ∷ 0 ∷ 0 ∷ 0 ∷ 0 ∷ 0 ∷ 0 ∷ []

abbrev sample_seven : SampleEvent
sample_seven = record {
  attributes = branches.attributes;
  id = some 7;
  ip = none;
  pid = some 3;
  tid = some 4;
  time = some 50;
  addr = none;
  stream_id = none;
  cpu = none;
  res = none;
  period = none;
  ips = none;
  raw_data = none;
}

abbrev id_seven : SampleId
id_seven = record {
  pid = some 3;
  tid = some 4;
  time = some 50;
  id = some 7;
  stream_id = none;
  cpu = none;
  res = none;
}

filled : fill_database (cycles ∷ branches ∷ []) empty_database ≡ finished two_entries
unfolding fill_database add_entries insert validate check_attributes calculate_id_offset
    calculate_id_back_offset test
filled = refl

sampled : parse_event branches.attributes sample_bytes little ≡ finished sample_seven
unfolding parse_event extract_move_if extract_list_if extract little_endian test
sampled = refl

identified : parse_sample_id_back 70 (drop 8 sample_bytes) little ≡ finished id_seven
unfolding parse_sample_id_back extract_move_back_if extract little_endian test
identified = refl

seven_found : event_id little sample_type (drop 8 sample_bytes) two_entries ≡ finished 7
unfolding extract little_endian
seven_found = refl

carried : carries_id sample_type cycles.attributes ≡ true
unfolding test
carried = refl

has_id : test 6 70 ≡ true
unfolding test
has_id = refl

has_no_identifier : test 16 70 ≡ false
unfolding test
has_no_identifier = refl

same_offset_there : two_entries.id_offset ≡ calculate_id_offset 70
unfolding calculate_id_offset test
same_offset_there = refl

get_event_attributes-owner_example :
    get_event_attributes little sample_type (drop 8 sample_bytes) two_entries
    ≡ answer (owner 7 (placed 0 (cycles ∷ branches ∷ [])))
get_event_attributes-owner_example =
    get_event_attributes-owner cycles branches [] empty_database two_entries little sample_type 7
      (drop 8 sample_bytes) filled carried seven_found (omega arith)

validate_iff_example : (validate two_entries ≡ finished two_entries) ↔ (
    AreConsistent two_entries.all_attributes
    × (two_entries ≡ with_offsets two_entries.all_attributes two_entries))
validate_iff_example = validate_iff two_entries two_entries

parse_event-event_id_example :
    event_id little sample_type (drop 8 sample_bytes) two_entries ≡ in_bounds sample_seven.id
parse_event-event_id_example =
    parse_event-event_id branches.attributes sample_bytes little sample_seven two_entries
      has_no_identifier has_id same_offset_there sampled

-- A sample of 24 bytes with the identifier 7 and a time.
abbrev identifier_bytes : List ℕ
identifier_bytes =
    9 ∷ 0 ∷ 0 ∷ 0 ∷ 0 ∷ 0 ∷ 24 ∷ 0 ∷ 7 ∷ 0 ∷ 0 ∷ 0 ∷ 0 ∷ 0 ∷ 0 ∷ 0 ∷ 50 ∷ 0 ∷ 0 ∷ 0 ∷ 0 ∷ 0 ∷ 0 ∷ 0
    ∷ []

abbrev sample_without_id : SampleEvent
sample_without_id = record {
  attributes = with_format 65540;
  id = none;
  ip = none;
  pid = none;
  tid = none;
  time = some 50;
  addr = none;
  stream_id = none;
  cpu = none;
  res = none;
  period = none;
  ips = none;
  raw_data = none;
}

parsed : parse_event (with_format 65540) identifier_bytes little ≡ finished sample_without_id
unfolding parse_event extract_move_if extract_list_if extract little_endian test
parsed = refl
