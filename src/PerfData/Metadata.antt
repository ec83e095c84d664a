-- ===== src/PerfData/Metadata.antt =====
-- `read_metadata` of snail/perf_data/perf_data_file.cpp, and snail/perf_data/metadata.{hpp,cpp}.
use snail_server.Common.{
  ℕ, zero, suc, ◌+◌, ◌-◌, ◌*◌, ◌%◌, ◌^◌, Bool, true, false, List, [], ◌∷◌, ◌++◌, Option, none, some,
  ◌==◌, ltb, length, drop, min, if◌then◌else◌,
}
use snail_server.Chunked.{ChunkedReader, new_reader, keep_going, retrieve_data}
use snail_server.Common.Bytes.{ByteOrder, extract_in}
use snail_server.Common.Run.{Run, finished, out_of_bounds, out_of_fuel, in_bounds, ◌>>=◌}
use snail_server.Common.Stream.{FileStream, seekg, tellg, read_stream}
use snail_server.PerfData.Attributes.{
  PerfError, EventAttributesDatabase, AttributeAndIds, fill_database, EventAttributes,
}
use snail_server.PerfData.Feature
use snail_server.PerfData.Flags.{test, count}
use snail_server.PerfData.Header.{
  SectionData, FileHeaderData, file_section_view, section_static_size, proceed_to_next_feature,
}
use snail_server.PerfData.Reading.{
  Chunks, EventHeader, lift, read_events, reset_position, instantiate, attributes_static_size,
}
use snail_server.PerfData.Records.{extract_string, subspan}
use snail_server.PerfData.Streams.{Reads, read_int, read_string, read_many, read_string_list}
use snail_server.Text.Codes.{Text, equal}

pub record NrCpus : Type 0 where
  pub nr_cpus_available : ℕ
  pub nr_cpus_online : ℕ

pub record EventDesc : Type 0 where
  pub attribute : EventAttributes
  pub event_string : Text
  pub ids : List ℕ

pub record SampleTime : Type 0 where
  pub start : ℕ
  pub end : ℕ

pub record PerfDataMetadata : Type 0 where
  pub build_ids : Option (List (Text × List ℕ))
  pub hostname : Option Text
  pub os_release : Option Text
  pub version : Option Text
  pub arch : Option Text
  pub nr_cpus : Option NrCpus
  pub cpu_desc : Option Text
  pub cpu_id : Option Text
  pub total_mem : Option ℕ
  pub cmdline : Option (List Text)
  pub event_desc : List EventDesc
  pub sample_time : Option SampleTime
  pub clockid : Option ℕ

abbrev pub no_metadata : PerfDataMetadata
no_metadata = record {
  build_ids = none;
  hostname = none;
  os_release = none;
  version = none;
  arch = none;
  nr_cpus = none;
  cpu_desc = none;
  cpu_id = none;
  total_mem = none;
  cmdline = none;
  event_desc = [];
  sample_time = none;
  clockid = none;
}

-- The build ids by file name; a buffer has 20 bytes.
unfoldable pub put_build_id : Text → List ℕ → List (Text × List ℕ) → List (Text × List ℕ)
put_build_id name id [] = (name, id) ∷ []
put_build_id name id ((n, i) ∷ more) =
    if equal n name then (name, id) ∷ more else (n, i) ∷ put_build_id name id more

abbrev pub build_ids_or_new : Option (List (Text × List ℕ)) → List (Text × List ℕ)
build_ids_or_new none = []
build_ids_or_new (some ids) = ids

abbrev pub add_build_id : Text → List ℕ → PerfDataMetadata → Run PerfError PerfDataMetadata
add_build_id name id metadata =
    if ltb 20 (length id)
    then out_of_bounds
    else finished (record metadata {
      build_ids = some (put_build_id name id (build_ids_or_new metadata.build_ids));
    })

-- Bit 15 says that the event has the size of the id.
abbrev pub build_id_size : Bool → ByteOrder → List ℕ → Run PerfError ℕ
build_id_size false order body = finished 20
build_id_size true order body = in_bounds (extract_in order 1 body 24)

abbrev pub read_build_id_event :
    ByteOrder → EventHeader → List ℕ → PerfDataMetadata → Run PerfError PerfDataMetadata
read_build_id_event order header event_buffer metadata = do
  misc ← in_bounds (extract_in order 2 event_buffer 4)
  size ← build_id_size (test 15 misc) order (drop 8 event_buffer)
  id ← in_bounds (subspan (drop 8 event_buffer) 4 size)
  add_build_id (extract_string (drop 8 event_buffer) 28) id metadata

abbrev pub skip_rest : ℕ → FileStream → FileStream
skip_rest attr_size stream =
    if ltb attributes_static_size attr_size
    then (if stream.failed
        then stream
        else record stream { position = stream.position + (attr_size - attributes_static_size) })
    else stream

-- Bytes of the array that were not read have no value.
abbrev pub attribute_bytes : ℕ → List ℕ × FileStream → Run PerfError (List ℕ × FileStream)
attribute_bytes size (bytes, stream) =
    if length bytes == size then finished (bytes, stream) else out_of_bounds

abbrev pub read_event_desc : ByteOrder → ℕ → Reads EventDesc
read_event_desc order attr_size stream = do
  bytes ←
      attribute_bytes (min attr_size attributes_static_size)
        (read_stream (min attr_size attributes_static_size) stream)
  nr_ids ← read_int order 4 (skip_rest attr_size bytes.1)
  event_string ← read_string order nr_ids.1
  ids ← read_many (read_int order 8) nr_ids.0 event_string.1
  attribute ← instantiate order bytes.0
  finished (record { attribute = attribute; event_string = event_string.0; ids = ids.0 }, ids.1)

abbrev pub read_event_descs : ByteOrder → Reads (List EventDesc)
read_event_descs order stream = do
  nr_events ← read_int order 4 stream
  attr_size ← read_int order 4 nr_events.1
  read_many (read_event_desc order attr_size.0) nr_events.0 attr_size.1

abbrev pub read_pair : ByteOrder → ℕ → Reads (ℕ × ℕ)
read_pair order width stream = do
  first ← read_int order width stream
  second ← read_int order width first.1
  finished ((first.0, second.0), second.1)

abbrev pub with_read : {T : Type 0} → Reads T → (T → PerfDataMetadata) → Reads PerfDataMetadata
with_read read store stream = read stream >>= (λ got. finished (store got.0, got.1))

-- The cases of the `switch`.
pub data FeatureKind : Type 0 where
  build_id_kind : FeatureKind
  string_kind : (Text → PerfDataMetadata → PerfDataMetadata) → FeatureKind
  nr_cpus_kind : FeatureKind
  total_mem_kind : FeatureKind
  cmdline_kind : FeatureKind
  event_desc_kind : FeatureKind
  sample_time_kind : FeatureKind
  clockid_kind : FeatureKind
  other_kind : FeatureKind

abbrev pub string_kinds : ℕ → FeatureKind
string_kinds feature =
    if feature == Feature.hostname
    then string_kind (λ t d. record d { hostname = some t })
    else if feature == Feature.osrelease
    then string_kind (λ t d. record d { os_release = some t })
    else if feature == Feature.version
    then string_kind (λ t d. record d { version = some t })
    else if feature == Feature.arch
    then string_kind (λ t d. record d { arch = some t })
    else if feature == Feature.cpu_desc
    then string_kind (λ t d. record d { cpu_desc = some t })
    else if feature == Feature.cpu_id
    then string_kind (λ t d. record d { cpu_id = some t })
    else other_kind

abbrev pub kind_of : ℕ → FeatureKind
kind_of feature =
    if feature == Feature.build_id
    then build_id_kind
    else if feature == Feature.nr_cpus
    then nr_cpus_kind
    else if feature == Feature.total_mem
    then total_mem_kind
    else if feature == Feature.cmdline
    then cmdline_kind
    else if feature == Feature.event_desc
    then event_desc_kind
    else if feature == Feature.sample_time
    then sample_time_kind
    else if feature == Feature.clockid
    then clockid_kind
    else string_kinds feature

-- No token cancels the reading of build ids. New descriptions of events stand behind the old ones.
abbrev pub read_feature :
    Chunks
    → ℕ
    → FileHeaderData
    → SectionData
    → PerfDataMetadata
    → FeatureKind
    → Reads PerfDataMetadata
read_feature chunks fuel header section d build_id_kind stream =
    read_events chunks fuel (λ round. false) stream header section
      (read_build_id_event header.byte_order) d
read_feature chunks fuel header section d (string_kind store) stream =
    with_read (read_string header.byte_order) (λ t. store t d) stream
read_feature chunks fuel header section d nr_cpus_kind stream =
    with_read (read_pair header.byte_order 4)
      (λ p. record d { nr_cpus = some (record { nr_cpus_available = p.0; nr_cpus_online = p.1 }) })
      stream
read_feature chunks fuel header section d total_mem_kind stream =
    with_read (read_int header.byte_order 8) (λ n. record d { total_mem = some n }) stream
read_feature chunks fuel header section d cmdline_kind stream =
    with_read (read_string_list header.byte_order) (λ ts. record d { cmdline = some ts }) stream
read_feature chunks fuel header section d event_desc_kind stream =
    with_read (read_event_descs header.byte_order)
      (λ es. record d { event_desc = d.event_desc ++ es }) stream
read_feature chunks fuel header section d sample_time_kind stream =
    with_read (read_pair header.byte_order 8)
      (λ p. record d { sample_time = some (record { start = p.0; end = p.1 }) }) stream
read_feature chunks fuel header section d clockid_kind stream =
    with_read (read_int header.byte_order 8) (λ n. record d { clockid = some n }) stream
read_feature chunks fuel header section d other_kind stream = finished (d, stream)

-- The section of a feature is read, and the position of the stream is put back.
abbrev pub visit_section :
    Chunks → ℕ → FileHeaderData → ℕ → PerfDataMetadata → SectionData → Reads PerfDataMetadata
visit_section chunks fuel header feature d section stream = do
  got ← read_feature chunks fuel header section d (kind_of feature) (seekg section.offset stream)
  finished (got.0, reset_position (tellg stream) got.1)

abbrev pub FeatureRounds : Type 0
FeatureRounds = ChunkedReader → ℕ → PerfDataMetadata → Run PerfError (PerfDataMetadata × FileStream)

abbrev pub feature_retrieved :
    Chunks
    → ℕ
    → FileHeaderData
    → FeatureRounds
    → ℕ
    → PerfDataMetadata
    → List ℕ × ChunkedReader
    → Run PerfError (PerfDataMetadata × FileStream)
feature_retrieved chunks fuel header next feature d (buffer, r) =
    if length buffer == section_static_size
    then file_section_view header.byte_order buffer 0
      >>= (λ section. visit_section chunks fuel header feature d section r.stream)
      >>= (λ got. next (record r { stream = got.1 }) feature got.0)
    else next r feature d

-- The feature moves on in each round, also where its section is not in the chunk yet.
abbrev pub feature_round :
    Chunks
    → ℕ
    → FileHeaderData
    → FeatureRounds
    → ℕ
    → PerfDataMetadata
    → Bool × ChunkedReader
    → Run PerfError (PerfDataMetadata × FileStream)
feature_round chunks fuel header next feature d (false, r) = finished (d, r.stream)
feature_round chunks fuel header next feature d (true, r) =
    feature_retrieved chunks fuel header next
      (proceed_to_next_feature header.additional_features feature) d
      (retrieve_data section_static_size false r)

unfoldable pub feature_rounds : Chunks → ℕ → FileHeaderData → FeatureRounds
feature_rounds chunks zero header r feature d = out_of_fuel
feature_rounds chunks (suc fuel) header r feature d =
    lift (keep_going r)
    >>= feature_round chunks fuel header (feature_rounds chunks fuel header) feature d

unfoldable pub read_metadata :
    Chunks
    → ℕ
    → FileStream
    → FileHeaderData
    → PerfDataMetadata
    → Run PerfError (PerfDataMetadata × FileStream)
read_metadata chunks fuel stream header d =
    let active = count 256 header.additional_features in
    if active == 0
    then finished (d, stream)
    else (lift (
          new_reader chunks.for_metadata stream
            ((header.event_data.offset + header.event_data.size) % 2 ^ 64)
            (active * section_static_size))
        >>= (λ r. feature_rounds chunks fuel header r 0 d))

abbrev pub entries_of_descs : List EventDesc → List AttributeAndIds
entries_of_descs [] = []
entries_of_descs (e ∷ es) = record { attributes = e.attribute; ids = e.ids } ∷ entries_of_descs es

abbrev pub extract_event_attributes_database :
    PerfDataMetadata → EventAttributesDatabase → Run PerfError EventAttributesDatabase
extract_event_attributes_database d db = fill_database (entries_of_descs d.event_desc) db
