-- ===== src/PerfData/Process.antt =====
-- `process` of snail/perf_data/perf_data_file.cpp.
use snail_server.Common.{ℕ, Bool, List, drop, if◌then◌else◌}
use snail_server.Common.Bytes.{ByteOrder}
use snail_server.Common.Run.{Run, finished, ◌>>=◌}
use snail_server.Common.Stream.{FileStream}
use snail_server.PerfData.Attributes.{
  PerfError, EventAttributesDatabase, empty_database, is_kernel_event, get_event_attributes,
}
use snail_server.PerfData.Feature
use snail_server.PerfData.Flags.{test}
use snail_server.PerfData.Header.{FileHeaderData, open_file}
use snail_server.PerfData.Metadata.{
  PerfDataMetadata, no_metadata, read_metadata, extract_event_attributes_database,
}
use snail_server.PerfData.Observer.{DispatchingEventObserver, handle_kernel, handle_other}
use snail_server.PerfData.Reading.{Chunks, EventHeader, read_events, read_attributes_section}

module _ {S : Type 0} (callbacks : DispatchingEventObserver S) where
  -- The data of an event of the kernel stands behind its header.
  abbrev pub dispatch_event :
      ByteOrder → EventAttributesDatabase → EventHeader → List ℕ → S → Run PerfError S
  dispatch_event order db header event_buffer s =
      if is_kernel_event header.type
      then get_event_attributes order header.type (drop 8 event_buffer) db
        >>= (λ attributes. handle_kernel callbacks header.type attributes event_buffer order s)
      else handle_other callbacks header.type event_buffer order s

  abbrev pub read_data_section :
      Chunks
      → ℕ
      → (ℕ → Bool)
      → FileStream
      → FileHeaderData
      → EventAttributesDatabase
      → S
      → Run PerfError (S × FileStream)
  read_data_section chunks fuel cancelled stream header db =
      read_events chunks fuel cancelled stream header header.event_data
        (dispatch_event header.byte_order db)

  -- The attributes are in a section of the file or in the metadata.
  abbrev pub read_attributes :
      Chunks
      → ℕ
      → FileHeaderData
      → FileStream
      → Run PerfError (EventAttributesDatabase × FileStream)
  read_attributes chunks fuel header stream =
      if test Feature.event_desc header.additional_features
      then finished (empty_database, stream)
      else read_attributes_section chunks fuel stream header empty_database

  abbrev pub attributes_of_metadata :
      FileHeaderData
      → PerfDataMetadata
      → EventAttributesDatabase
      → Run PerfError EventAttributesDatabase
  attributes_of_metadata header d db =
      if test Feature.event_desc header.additional_features
      then extract_event_attributes_database d db
      else finished db

  abbrev pub process :
      Chunks
      → ℕ
      → (ℕ → Bool)
      → FileHeaderData
      → FileStream
      → S
      → Run PerfError (S × PerfDataMetadata × FileStream)
  process chunks fuel cancelled header stream s = do
    attributes ← read_attributes chunks fuel header stream
    metadata ← read_metadata chunks fuel attributes.1 header no_metadata
    db ← attributes_of_metadata header metadata.0 attributes.0
    result ← read_data_section chunks fuel cancelled metadata.1 header db s
    finished (result.0, metadata.0, result.1)

  -- A file that is opened and processed.
  abbrev pub open_and_process :
      Chunks → ℕ → (ℕ → Bool) → FileStream → S → Run PerfError (S × PerfDataMetadata × FileStream)
  open_and_process chunks fuel cancelled stream s =
      open_file stream >>= (λ opened. process chunks fuel cancelled opened.0 opened.1 s)
