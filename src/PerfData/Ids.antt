-- ===== src/PerfData/Ids.antt =====
-- The id that the attributes are found by, and the id that the parser of the event reads.
use snail_server.Common.{
  ℕ, ◌+◌, ◌-◌, [], take, ◌≡◌, refl, sym, ◌∙◌, ap, ap₂, true, false, List, none, some, ◌==◌, ltb,
  length, drop, if◌then◌else◌, arith,
}
use snail_server.Chunked.Laws.{drop-drop}
use snail_server.Common.Bytes.{
  ByteOrder, little, big, extract, extract_in, little_endian, reverse_onto,
}
use snail_server.Common.Run.{finished, out_of_bounds, Ensures-finished, in_bounds, ◌>>=◌}
use snail_server.PerfData.Attributes.{
  PerfError, EventAttributes, EventAttributesDatabase, calculate_id_offset,
  calculate_id_back_offset, event_id, id_from_back, sample_type, added_if,
}
use snail_server.PerfData.Flags.{test}
use snail_server.PerfData.Positions.{
  value_if, bytes_before_id, bytes_behind_id, parse_event-id, parse_sample_id_back-IsReadBack,
}
use snail_server.PerfData.Records.{SampleEvent, SampleId, parse_event, parse_sample_id_back}
use snail_server.PerfData.SampleFormat

id_offset_of_id :
    (format : ℕ)
    → test SampleFormat.identifier format ≡ false
    → test SampleFormat.id format ≡ true
    → calculate_id_offset format ≡ some (bytes_before_id format)
unfolding calculate_id_offset
id_offset_of_id format i d = rw (i, d) refl

id_back_offset_of_id :
    (format : ℕ)
    → test SampleFormat.identifier format ≡ false
    → test SampleFormat.id format ≡ true
    → calculate_id_back_offset format
      ≡ some (
          8
          + added_if (test SampleFormat.cpu format)
          + added_if (test SampleFormat.stream_id format))
unfolding calculate_id_back_offset
id_back_offset_of_id format i d = rw (i, d) refl

extract_in-drop :
    (order : ByteOrder) (width n m : ℕ) (buffer : List ℕ)
    → extract_in order width (drop n buffer) m ≡ extract_in order width buffer (n + m)
unfolding extract
extract_in-drop little width n m buffer = ap (little_endian width) (drop-drop n m buffer)
extract_in-drop big width n m buffer =
    ap (λ xs. little_endian width (reverse_onto (take width xs) [])) (drop-drop n m buffer)

-- For attributes with an id and no identifier, the id that the attributes of a sample are found by is the
-- one that `parse_event` reads.
pub parse_event-event_id :
    (attributes : EventAttributes) (buffer : List ℕ) (order : ByteOrder) (e : SampleEvent)
    (db : EventAttributesDatabase)
    → test SampleFormat.identifier attributes.sample_format ≡ false
    → test SampleFormat.id attributes.sample_format ≡ true
    → db.id_offset ≡ calculate_id_offset attributes.sample_format
    → parse_event attributes buffer order ≡ finished e
    → event_id order sample_type (drop 8 buffer) db ≡ in_bounds e.id
parse_event-event_id attributes buffer order e db i d o p =
    let f = attributes.sample_format in
    let read =
      Ensures-finished _ (parse_event attributes buffer order) e
        (parse_event-id attributes buffer order) p in
    let here : 8 + added_if (test SampleFormat.identifier f) + bytes_before_id f
        ≡ 8 + bytes_before_id f =
      ap (λ b. 8 + added_if b + bytes_before_id f) i in
    ap
      (λ x.
        in_bounds {E = PerfError} x
        >>= (λ offset. in_bounds (extract_in order 8 (drop 8 buffer) offset)))
      (o ∙ id_offset_of_id f i d)
    ∙ ap in_bounds (
        extract_in-drop order 8 8 (bytes_before_id f) buffer
        ∙ ap (extract_in order 8 buffer) (sym here)
        ∙ sym (
            ap
              (λ b.
                value_if order 8 b buffer
                  (8 + added_if (test SampleFormat.identifier f) + bytes_before_id f))
              d)
        ∙ sym read)

-- The same for an event of the kernel that is no sample: it is the id that `parse_sample_id_back` reads.
pub parse_sample_id_back-event_id :
    (attributes : EventAttributes) (event_data : List ℕ) (order : ByteOrder) (s : SampleId)
    (db : EventAttributesDatabase) (type : ℕ)
    → (type == sample_type) ≡ false
    → test SampleFormat.identifier attributes.sample_format ≡ false
    → test SampleFormat.id attributes.sample_format ≡ true
    → db.id_back_offset ≡ calculate_id_back_offset attributes.sample_format
    → parse_sample_id_back attributes.sample_format event_data order ≡ finished s
    → event_id order type event_data db ≡ in_bounds s.id
parse_sample_id_back-event_id attributes event_data order s db type t i d o p =
    let f = attributes.sample_format in
    let back = 8 + added_if (test SampleFormat.cpu f) + added_if (test SampleFormat.stream_id f) in
    let read =
      Ensures-finished _ (parse_sample_id_back f event_data order) s
        (parse_sample_id_back-IsReadBack f event_data order) p in
    let enough : ltb (length event_data) back ≡ false = ground (arith, i, d, read.1) in
    let here : length event_data
          - (added_if (test SampleFormat.identifier f) + bytes_behind_id f + 8)
        ≡ length event_data - back =
      ground (arith, i) in
    ap₂
      (λ b x.
        if b
        then in_bounds db.id_offset >>= (λ offset. in_bounds (extract_in order 8 event_data offset))
        else in_bounds {E = PerfError} x >>= id_from_back order event_data)
      t (o ∙ id_back_offset_of_id f i d)
    ∙ ap
        (λ b.
          if b
          then out_of_bounds
          else in_bounds (extract_in order 8 event_data (length event_data - back)))
        enough
    ∙ ap in_bounds (
        ap (extract_in order 8 event_data) (sym here)
        ∙ sym (
            ap
              (λ b. value_if order 8 b event_data (
                length event_data
                - (added_if (test SampleFormat.identifier f) + bytes_behind_id f + 8)))
              d)
        ∙ sym read.0)

id_offset_of_identifier :
    (format : ℕ) → test SampleFormat.identifier format ≡ true → calculate_id_offset format ≡ some 0
unfolding calculate_id_offset
id_offset_of_identifier format i = rw i refl

-- With an identifier and no id, the attributes are found by the first eight bytes, but the parsed sample
-- has no id: what is read for the identifier is replaced by nothing.
pub lost_identifier :
    (attributes : EventAttributes) (buffer : List ℕ) (order : ByteOrder) (e : SampleEvent)
    → test SampleFormat.identifier attributes.sample_format ≡ true
    → test SampleFormat.id attributes.sample_format ≡ false
    → parse_event attributes buffer order ≡ finished e
    → (calculate_id_offset attributes.sample_format ≡ some 0) × (e.id ≡ none)
lost_identifier attributes buffer order e i d p =
    let f = attributes.sample_format in
    (
      id_offset_of_identifier f i,
      Ensures-finished _ (parse_event attributes buffer order) e
            (parse_event-id attributes buffer order) p
          ∙ ap
              (λ b.
                value_if order 8 b buffer
                  (8 + added_if (test SampleFormat.identifier f) + bytes_before_id f))
              d,
    )
