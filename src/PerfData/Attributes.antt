-- ===== src/PerfData/Attributes.antt =====
-- snail/perf_data/detail/attributes_database.{hpp,cpp}: the attributes of events, found by an id that the
-- event carries.
use snail_server.Common.{
  ℕ, ◌+◌, ◌-◌, Bool, true, false, not, ◌&&◌, ◌||◌, List, [], ◌∷◌, ◌++◌, Option, none, some, ◌==◌,
  ltb, length, get_elem?, if◌then◌else◌,
}
use snail_server.Common.AssocMap.{lookup, insert}
use snail_server.Common.Bytes.{ByteOrder, extract_in}
use snail_server.Common.Run.{Run, finished, throws, out_of_bounds, in_bounds, ◌>>=◌}
use snail_server.Chunked.{ReaderError}
use snail_server.PerfData.Flags.{test}
use snail_server.PerfData.SampleFormat
use snail_server.Text.Codes.{Text}

abbrev pub read_format_id : ℕ
read_format_id = 2

abbrev pub sample_id_all : ℕ
sample_id_all = 18

-- `event_type::sample`, and the range of the types that the kernel writes.
abbrev pub sample_type : ℕ
sample_type = 9

abbrev pub is_kernel_event : ℕ → Bool
is_kernel_event type = not (ltb type 1) && not (ltb 21 type)

pub record EventAttributes : Type 0 where
  pub type : ℕ
  pub sample_period_freq : ℕ
  pub sample_format : ℕ
  pub read_format : ℕ
  pub flags : ℕ
  pub precise_ip : ℕ
  pub name : Option Text
  -- Which of the attributes in a database these are; two with equal values are told apart by it.
  pub address : ℕ

-- What is thrown, by the text of the exception.
pub data PerfError : Type 0 where
  reader_error : ReaderError → PerfError
  empty_event_attributes : PerfError
  non_matching_read_format : PerfError
  non_matching_id_positions : PerfError
  non_matching_sample_id_all : PerfError
  non_matching_read_formats : PerfError
  no_attributes_for_id : PerfError
  insufficient_size_for_header : PerfError
  invalid_magic : PerfError
  invalid_header_size : PerfError

abbrev pub added_if : Bool → ℕ
added_if b = if b then 8 else 0

unfoldable pub calculate_id_offset : ℕ → Option ℕ
calculate_id_offset format =
    if test SampleFormat.identifier format
    then some 0
    else if not (test SampleFormat.id format)
    then none
    else some (
        added_if (test SampleFormat.ip format)
        + added_if (test SampleFormat.tid format)
        + added_if (test SampleFormat.time format)
        + added_if (test SampleFormat.addr format))

unfoldable pub calculate_id_back_offset : ℕ → Option ℕ
calculate_id_back_offset format =
    if test SampleFormat.identifier format
    then some 8
    else if not (test SampleFormat.id format)
    then none
    else some (
        8 + added_if (test SampleFormat.cpu format) + added_if (test SampleFormat.stream_id format))

-- A pointer to attributes in the vector is their index: it has room for all from the start, so that no
-- pointer is lost.
pub record EventAttributesDatabase : Type 0 where
  pub all_attributes : List EventAttributes
  pub id_to_attributes : List (ℕ × ℕ)
  pub id_offset : Option ℕ
  pub id_back_offset : Option ℕ

abbrev pub same_offset : Option ℕ → Option ℕ → Bool
same_offset none none = true
same_offset none (some n) = false
same_offset (some m) none = false
same_offset (some m) (some n) = m == n

abbrev pub same_bit : Bool → Bool → Bool
same_bit true b = b
same_bit false b = not b

unfoldable pub check_attributes : EventAttributes → List EventAttributes → Option PerfError
check_attributes main [] = none
check_attributes main (a ∷ others) =
    let later = check_attributes main others in
    if not
        (same_offset (calculate_id_offset main.sample_format) (calculate_id_offset a.sample_format))
      || not (
          same_offset (calculate_id_back_offset main.sample_format)
            (calculate_id_back_offset a.sample_format))
    then some non_matching_id_positions
    else if not (same_bit (test sample_id_all main.flags) (test sample_id_all a.flags))
    then some non_matching_sample_id_all
    else if not (main.read_format == a.read_format)
    then some non_matching_read_formats
    else later

abbrev pub set_offsets : EventAttributes → EventAttributesDatabase → EventAttributesDatabase
set_offsets main db = record db {
  id_offset = calculate_id_offset main.sample_format;
  id_back_offset = calculate_id_back_offset main.sample_format;
}

abbrev pub or_throw {ℓ} : {T : Type ℓ} → Option PerfError → T → Run PerfError T
or_throw none t = finished t
or_throw (some e) t = throws e

abbrev pub validate_all :
    List EventAttributes → EventAttributesDatabase → Run PerfError EventAttributesDatabase
validate_all [] db = throws empty_event_attributes
validate_all (main ∷ others) db =
    if test SampleFormat.read main.sample_format && not (test read_format_id main.read_format)
    then throws non_matching_read_format
    else or_throw (check_attributes main (main ∷ others)) (set_offsets main db)

unfoldable pub validate : EventAttributesDatabase → Run PerfError EventAttributesDatabase
validate db = validate_all db.all_attributes db

-- The id of an event; the program reads behind the end, or through an empty optional, all the same.
abbrev pub id_from_back : ByteOrder → List ℕ → ℕ → Run PerfError ℕ
id_from_back order event_data back =
    if ltb (length event_data) back
    then out_of_bounds
    else in_bounds (extract_in order 8 event_data (length event_data - back))

abbrev pub event_id : ByteOrder → ℕ → List ℕ → EventAttributesDatabase → Run PerfError ℕ
event_id order type event_data db =
    if type == sample_type
    then in_bounds db.id_offset >>= (λ offset. in_bounds (extract_in order 8 event_data offset))
    else in_bounds db.id_back_offset >>= id_from_back order event_data

abbrev pub found_attributes : EventAttributesDatabase → Option ℕ → Run PerfError EventAttributes
found_attributes db none = throws no_attributes_for_id
found_attributes db (some index) = in_bounds (get_elem? db.all_attributes index)

abbrev pub attributes_of_id :
    EventAttributes → EventAttributesDatabase → ℕ → Run PerfError EventAttributes
attributes_of_id main db id =
    if id == 0 then finished main else found_attributes db (lookup id db.id_to_attributes)

abbrev pub choose_attributes :
    ByteOrder
    → ℕ
    → List ℕ
    → EventAttributesDatabase
    → List EventAttributes
    → Run PerfError EventAttributes
choose_attributes order type event_data db [] = out_of_bounds
choose_attributes order type event_data db (main ∷ others) =
    if length (main ∷ others) == 1
    then finished main
    else if not (test sample_id_all main.flags) && not (type == sample_type)
    then finished main
    else event_id order type event_data db >>= attributes_of_id main db

unfoldable pub get_event_attributes :
    ByteOrder → ℕ → List ℕ → EventAttributesDatabase → Run PerfError EventAttributes
get_event_attributes order type event_data db =
    choose_attributes order type event_data db db.all_attributes

-- What a file says of one kind of events.
pub record AttributeAndIds : Type 0 where
  pub attributes : EventAttributes
  pub ids : List ℕ

abbrev pub add_ids : ℕ → List ℕ → List (ℕ × ℕ) → List (ℕ × ℕ)
add_ids index [] found = found
add_ids index (id ∷ ids) found = add_ids index ids (insert id index found)

abbrev pub add_entry : AttributeAndIds → EventAttributesDatabase → EventAttributesDatabase
add_entry e db = record db {
  all_attributes = db.all_attributes ++ e.attributes ∷ [];
  id_to_attributes = add_ids (length db.all_attributes) e.ids db.id_to_attributes;
}

unfoldable pub add_entries :
    List AttributeAndIds → EventAttributesDatabase → EventAttributesDatabase
add_entries [] db = db
add_entries (e ∷ es) db = add_entries es (add_entry e db)

abbrev pub empty_database : EventAttributesDatabase
empty_database = record {
  all_attributes = [];
  id_to_attributes = [];
  id_offset = none;
  id_back_offset = none;
}

-- The copies in the vector: the address of each is its index.
abbrev pub placed : ℕ → List AttributeAndIds → List AttributeAndIds
placed index [] = []
placed index (e ∷ es) =
    record e { attributes = record e.attributes { address = index } } ∷ placed (index + 1) es

-- The map of a database is cleared first.
unfoldable pub fill_database :
    List AttributeAndIds → EventAttributesDatabase → Run PerfError EventAttributesDatabase
fill_database es db =
    validate (add_entries (placed 0 es) (record db { all_attributes = []; id_to_attributes = [] }))
