-- ===== src/PerfData/Header.antt =====
-- The header of a file: snail/perf_data/parser/header.hpp, detail/file_header.hpp and `open` of
-- snail/perf_data/perf_data_file.cpp.
use snail_server.Common.{
  ℕ, zero, suc, ◌+◌, ◌*◌, ◌^◌, Bool, true, not, ◌&&◌, List, Option, none, some, ◌==◌, ltb,
  if◌then◌else◌,
}
use snail_server.Common.Bytes.{ByteOrder, little, big, extract, extract_in}
use snail_server.Common.Run.{Run, finished, throws, in_bounds, ◌>>=◌}
use snail_server.Common.Stream.{FileStream, tellg, read_stream}
use snail_server.PerfData.Attributes.{
  PerfError, insufficient_size_for_header, invalid_magic, invalid_header_size,
}
use snail_server.PerfData.Feature
use snail_server.PerfData.Flags.{test, only}

pub record SectionData : Type 0 where
  pub offset : ℕ
  pub size : ℕ

pub record FileHeaderData : Type 0 where
  pub byte_order : ByteOrder
  pub size : ℕ
  pub attribute_size : ℕ
  pub attributes : SectionData
  pub event_data : SectionData
  pub event_types : SectionData
  pub additional_features : ℕ

abbrev pub section_static_size : ℕ
section_static_size = 16

abbrev pub header_static_size : ℕ
header_static_size = 104

abbrev pub file_section_view : ByteOrder → List ℕ → ℕ → Run PerfError SectionData
file_section_view order buffer at = do
  offset ← in_bounds (extract_in order 8 buffer at)
  size ← in_bounds (extract_in order 8 buffer (at + 8))
  finished (record { offset = offset; size = size })

-- Words of a number of bytes, the lowest bits first.
unfoldable pub extract_bitset : ByteOrder → ℕ → ℕ → List ℕ → ℕ → Run PerfError ℕ
extract_bitset order width zero buffer at = finished 0
extract_bitset order width (suc n) buffer at =
    in_bounds (extract_in order width buffer at) >>= (λ word.
      extract_bitset order width n buffer (at + width)
      >>= (λ higher. finished (word + 2 ^ (8 * width) * higher)))

abbrev pub hostname_or : ℕ → Run PerfError ℕ → Run PerfError ℕ
hostname_or flags others = if test Feature.hostname flags then finished flags else others

-- In the other byte order the size of a word has to be found out, by a feature that is always there.
abbrev pub additional_features : ByteOrder → List ℕ → Run PerfError ℕ
additional_features little buffer = extract_bitset little 8 4 buffer 72
additional_features big buffer = extract_bitset big 8 4 buffer 72 >>= (λ flags. hostname_or flags (
    extract_bitset big 4 8 buffer 72
    >>= (λ narrow. hostname_or narrow (finished (only Feature.build_id)))))

-- "PERFILE2" as a number, and with its bytes swapped.
abbrev pub magic_v2 : ℕ
magic_v2 = 3622385352885552464

abbrev pub magic_v2_swapped : ℕ
magic_v2_swapped = 5784119758258193714

abbrev pub order_of : ℕ → Run PerfError ByteOrder
order_of magic =
    if magic == magic_v2
    then finished little
    else if magic == magic_v2_swapped
    then finished big
    else throws invalid_magic

abbrev pub read_header : List ℕ → ByteOrder → Run PerfError FileHeaderData
read_header buffer order = do
  size ← in_bounds (extract_in order 8 buffer 8)
  checked ← if size == header_static_size then finished size else throws invalid_header_size
  attribute_size ← in_bounds (extract_in order 8 buffer 16)
  attributes ← file_section_view order buffer 24
  event_data ← file_section_view order buffer 40
  event_types ← file_section_view order buffer 56
  features ← additional_features order buffer
  finished (record {
    byte_order = order;
    size = checked;
    attribute_size = attribute_size;
    attributes = attributes;
    event_data = event_data;
    event_types = event_types;
    additional_features = features;
  })

-- -1 is less than the size.
abbrev pub is_short : Option ℕ → Bool
is_short none = true
is_short (some n) = ltb n header_static_size

-- The stream starts at 0. Where it throws, the file is closed.
unfoldable pub open_file : FileStream → Run PerfError (FileHeaderData × FileStream)
open_file stream =
    let got = read_stream header_static_size stream in
    if is_short (tellg got.1) then throws insufficient_size_for_header else (do
      magic ← in_bounds (extract 8 got.0 0)
      order ← order_of magic
      header ← read_header got.0 order
      finished (header, got.1))

-- The loop of `proceed_to_next_feature`; the last feature ends it, so 32 rounds are enough.
unfoldable pub skip_unset : ℕ → ℕ → ℕ → ℕ
skip_unset zero flags next = next
skip_unset (suc fuel) flags next =
    let later = skip_unset fuel flags (next + 1) in
    if not (test next flags) && ltb next Feature.last_feature then later else next

unfoldable pub proceed_to_next_feature : ℕ → ℕ → ℕ
proceed_to_next_feature flags current = skip_unset Feature.last_feature flags (current + 1)
