-- ===== src/PerfData/Reading.antt =====
-- `read_events` and `read_attributes_section` of snail/perf_data/perf_data_file.cpp.
use snail_server.Common.{
  ℕ, zero, suc, ◌+◌, ◌/◌, ◌%◌, ◌^◌, Bool, true, false, not, List, [], ◌∷◌, ◌++◌, Option, none, some,
  ◌==◌, ltb, length, drop, take, min, if◌then◌else◌,
}
use snail_server.Chunked.{ReaderError, ChunkedReader, new_reader, keep_going, retrieve_data}
use snail_server.Common.Bytes.{ByteOrder, extract_in}
use snail_server.Common.Run.{Run, finished, throws, out_of_bounds, out_of_fuel, in_bounds, ◌>>=◌}
use snail_server.Common.Stream.{FileStream, seekg, tellg}
use snail_server.PerfData.Attributes.{
  PerfError, reader_error, EventAttributes, EventAttributesDatabase, AttributeAndIds, fill_database,
}
use snail_server.PerfData.Header.{
  SectionData, FileHeaderData, file_section_view, section_static_size,
}

-- The exceptions of the reader are not caught.
abbrev pub lift {ℓ} : {T : Type ℓ} → Run ReaderError T → Run PerfError T
lift (finished t) = finished t
lift (throws e) = throws (reader_error e)
lift out_of_bounds = out_of_bounds
lift out_of_fuel = out_of_fuel

pub record EventHeader : Type 0 where
  pub type : ℕ
  pub misc : ℕ
  pub size : ℕ

abbrev pub event_header_size : ℕ
event_header_size = 8

abbrev pub event_header_view : ByteOrder → List ℕ → Run PerfError EventHeader
event_header_view order buffer = do
  type ← in_bounds (extract_in order 4 buffer 0)
  misc ← in_bounds (extract_in order 2 buffer 4)
  size ← in_bounds (extract_in order 2 buffer 6)
  finished (record { type = type; misc = misc; size = size })

-- The arrays of the readers, which start with any bytes: 0x10000 for events and attributes, 0xFF for ids and
-- 512 for metadata.
pub record Chunks : Type 0 where
  pub for_events : List ℕ
  pub for_ids : List ℕ
  pub for_metadata : List ℕ

-- A callback changes a state. The rounds of a loop over a reader are the ones that follow.
abbrev pub Callback : Type 0 → Type 0
Callback S = EventHeader → List ℕ → S → Run PerfError S

abbrev pub Rounds : Type 0 → Type 0
Rounds S = ChunkedReader → S → Run PerfError (S × FileStream)

module _ {S : Type 0} where
  -- `continue` where the event is not in the chunk.
  abbrev pub handle_retrieved :
      Callback S
      → Rounds S
      → EventHeader
      → S
      → List ℕ × ChunkedReader
      → Run PerfError (S × FileStream)
  handle_retrieved callback next header s (bytes, r) =
      if length bytes == header.size then callback header bytes s >>= next r else next r s

  -- An event that is smaller than its header ends the loop.
  abbrev pub handle_header :
      Callback S → Rounds S → ChunkedReader → S → EventHeader → Run PerfError (S × FileStream)
  handle_header callback next r s header =
      if ltb header.size event_header_size
      then finished (s, r.stream)
      else handle_retrieved callback next header s (retrieve_data header.size false r)

  abbrev pub handle_peeked :
      ByteOrder
      → Callback S
      → Rounds S
      → S
      → List ℕ × ChunkedReader
      → Run PerfError (S × FileStream)
  handle_peeked order callback next s (bytes, r) =
      if length bytes == event_header_size
      then event_header_view order bytes >>= handle_header callback next r s
      else next r s

  abbrev pub read_round :
      Bool
      → ByteOrder
      → Callback S
      → Rounds S
      → S
      → Bool × ChunkedReader
      → Run PerfError (S × FileStream)
  read_round cancelled order callback next s (false, r) = finished (s, r.stream)
  read_round cancelled order callback next s (true, r) =
      if cancelled
      then finished (s, r.stream)
      else handle_peeked order callback next s (retrieve_data event_header_size true r)

  -- `cancelled` says in which of the coming rounds the token is found cancelled.
  unfoldable pub event_rounds : ℕ → (ℕ → Bool) → ByteOrder → Callback S → Rounds S
  event_rounds zero cancelled order callback r s = out_of_fuel
  event_rounds (suc fuel) cancelled order callback r s =
      lift (keep_going r)
      >>= read_round (cancelled fuel) order callback (event_rounds fuel cancelled order callback) s

  unfoldable pub read_events :
      Chunks
      → ℕ
      → (ℕ → Bool)
      → FileStream
      → FileHeaderData
      → SectionData
      → Callback S
      → S
      → Run PerfError (S × FileStream)
  read_events chunks fuel cancelled stream header section callback s =
      lift (new_reader chunks.for_events stream section.offset section.size)
      >>= (λ r. event_rounds fuel cancelled header.byte_order callback r s)

-- `stream_position_resetter`: the position is -1 where the stream has failed.
abbrev pub reset_position : Option ℕ → FileStream → FileStream
reset_position none stream = record stream { failed = true }
reset_position (some position) stream = seekg position stream

-- The ids of one kind of events.
abbrev pub add_id_read :
    ByteOrder
    → List ℕ
    → (ChunkedReader → List ℕ → Run PerfError (List ℕ × FileStream))
    → List ℕ × ChunkedReader
    → Run PerfError (List ℕ × FileStream)
add_id_read order ids next (bytes, r) =
    if length bytes == 8
    then in_bounds (extract_in order 8 bytes 0) >>= (λ id. next r (ids ++ id ∷ []))
    else next r ids

abbrev pub id_round :
    ByteOrder
    → List ℕ
    → (ChunkedReader → List ℕ → Run PerfError (List ℕ × FileStream))
    → Bool × ChunkedReader
    → Run PerfError (List ℕ × FileStream)
id_round order ids next (false, r) = finished (ids, r.stream)
id_round order ids next (true, r) = add_id_read order ids next (retrieve_data 8 false r)

unfoldable pub id_rounds :
    ℕ → ByteOrder → ChunkedReader → List ℕ → Run PerfError (List ℕ × FileStream)
id_rounds zero order r ids = out_of_fuel
id_rounds (suc fuel) order r ids = lift (keep_going r) >>= id_round order ids (id_rounds fuel order)

abbrev pub read_ids :
    Chunks → ℕ → ByteOrder → SectionData → FileStream → Run PerfError (List ℕ × FileStream)
read_ids chunks fuel order section stream = do
  r ← lift (new_reader chunks.for_ids stream section.offset section.size)
  got ← id_rounds fuel order r []
  finished (got.0, reset_position (tellg stream) got.1)

abbrev pub attributes_static_size : ℕ
attributes_static_size = 134

abbrev pub precise_ip_of : ℕ → ℕ
precise_ip_of flags = (flags / 2 ^ 15) % 4

-- `event_attributes_view::instantiate`; the period and the frequency are at the same place.
abbrev pub instantiate : ByteOrder → List ℕ → Run PerfError EventAttributes
instantiate order buffer = do
  type ← in_bounds (extract_in order 4 buffer 0)
  period ← in_bounds (extract_in order 8 buffer 16)
  sample_format ← in_bounds (extract_in order 8 buffer 24)
  read_format ← in_bounds (extract_in order 8 buffer 32)
  flags ← in_bounds (extract_in order 8 buffer 40)
  finished (record {
    type = type;
    sample_period_freq = period;
    sample_format = sample_format;
    read_format = read_format;
    flags = flags;
    precise_ip = precise_ip_of flags;
    name = none;
    address = 0;
  })

-- All kinds of events that were read, or none where one has an unexpected size.
abbrev pub AttributeRounds : Type 0
AttributeRounds =
    ChunkedReader
    → List AttributeAndIds
    → Run PerfError (Option (List AttributeAndIds) × FileStream)

abbrev pub read_entry :
    Chunks → ℕ → FileHeaderData → List ℕ → FileStream → Run PerfError (AttributeAndIds × FileStream)
read_entry chunks fuel header buffer stream = do
  section ← file_section_view header.byte_order (drop header.attribute_size buffer) 0
  ids ← read_ids chunks fuel header.byte_order section stream
  attributes ←
      instantiate header.byte_order (take (min header.attribute_size attributes_static_size) buffer)
  finished (record { attributes = attributes; ids = ids.0 }, ids.1)

abbrev pub attribute_retrieved :
    Chunks
    → ℕ
    → FileHeaderData
    → ℕ
    → AttributeRounds
    → List AttributeAndIds
    → List ℕ × ChunkedReader
    → Run PerfError (Option (List AttributeAndIds) × FileStream)
attribute_retrieved chunks fuel header chunk_size next entries (buffer, r) =
    if not (length buffer == chunk_size) then next r entries else (do
      size ← in_bounds (
          extract_in header.byte_order 4
            (take (min header.attribute_size attributes_static_size) buffer) 4)
      if not (size == header.attribute_size)
          then finished (none, r.stream)
          else read_entry chunks fuel header buffer r.stream
            >>= (λ e. next (record r { stream = e.1 }) (entries ++ e.0 ∷ [])))

abbrev pub attribute_round :
    Chunks
    → ℕ
    → FileHeaderData
    → ℕ
    → AttributeRounds
    → List AttributeAndIds
    → Bool × ChunkedReader
    → Run PerfError (Option (List AttributeAndIds) × FileStream)
attribute_round chunks fuel header chunk_size next entries (false, r) =
    finished (some entries, r.stream)
attribute_round chunks fuel header chunk_size next entries (true, r) =
    attribute_retrieved chunks fuel header chunk_size next entries
      (retrieve_data chunk_size false r)

unfoldable pub attribute_rounds : Chunks → ℕ → FileHeaderData → ℕ → AttributeRounds
attribute_rounds chunks zero header chunk_size r entries = out_of_fuel
attribute_rounds chunks (suc fuel) header chunk_size r entries =
    lift (keep_going r)
    >>= attribute_round chunks fuel header chunk_size
        (attribute_rounds chunks fuel header chunk_size) entries

-- The database stays as it is where an entry has an unexpected size.
abbrev pub fill_if :
    Option (List AttributeAndIds) → EventAttributesDatabase → Run PerfError EventAttributesDatabase
fill_if none db = finished db
fill_if (some entries) db = fill_database entries db

unfoldable pub read_attributes_section :
    Chunks
    → ℕ
    → FileStream
    → FileHeaderData
    → EventAttributesDatabase
    → Run PerfError (EventAttributesDatabase × FileStream)
read_attributes_section chunks fuel stream header db = do
  r ← lift (new_reader chunks.for_events stream header.attributes.offset header.attributes.size)
  got ←
      attribute_rounds chunks fuel header ((header.attribute_size + section_static_size) % 2 ^ 64) r
        []
  filled ← fill_if got.0 db
  finished (filled, got.1)
