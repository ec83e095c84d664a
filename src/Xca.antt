-- ===== src/Xca.antt =====
-- snail/common/ms_xca_decompression.cpp: plain LZ77 decompression after MS-XCA.
pub mod Copy
pub mod Bounds
pub mod Literals
pub mod Examples
use snail_server.Common.{
  ℕ, zero, suc, ◌+◌, ◌-◌, ◌*◌, ◌/◌, ◌%◌, ◌^◌, Bool, List, [], ◌∷◌, ◌++◌, Option, none, some, ◌==◌,
  ltb, leb, length, get_elem?, if◌then◌else◌,
}
use snail_server.Common.Bytes.{extract}
use snail_server.Common.Run.{Run, finished, throws, out_of_bounds, out_of_fuel, ◌>>=◌, in_bounds}
use snail_server.Xca.Copy.{copy_back}

-- The texts of the `std::runtime_error`s that are thrown.
pub data XcaError : Type 0 where
  insufficient_output : XcaError
  invalid_data : XcaError
  not_implemented : XcaError
  invalid_format : XcaError

-- The variables of the loop: `written` are the bytes of the output up to `out_pos`.
pub record Progress : Type 0 where
  pub in_offset : ℕ
  pub flag_count : ℕ
  pub flags : ℕ
  pub last_length_half_offset : ℕ
  pub written : List ℕ

abbrev pub start : Progress
start = record {
  in_offset = 0;
  flag_count = 0;
  flags = 0;
  last_length_half_offset = 0;
  written = [];
}

-- The length of a match with the offset behind it and `last_length_half_offset`.
pub record MatchLength : Type 0 where
  pub match_length : ℕ
  pub next_offset : ℕ
  pub half_offset : ℕ

module _ (input : List ℕ) where
  -- Where all three bits are set: half a byte, of a new byte or the other half of the last one.
  abbrev pub read_half : ℕ → ℕ → Run XcaError MatchLength
  read_half offset zero = do
    byte ← in_bounds (extract 1 input offset)
    finished (record { match_length = byte % 16; next_offset = offset + 1; half_offset = offset })
  read_half offset (suc half) = do
    byte ← in_bounds (extract 1 input (suc half))
    finished (record { match_length = byte / 16; next_offset = offset; half_offset = 0 })

  abbrev pub read_32 : ℕ → ℕ → Run XcaError (ℕ × ℕ)
  read_32 offset length_16 =
      if length_16 == 0
      then (do long ← in_bounds (extract 4 input offset); finished (long, offset + 4))
      else finished (length_16, offset)

  -- Lengths from 255: two bytes, or four if the two are zero, less what the shorter forms say.
  abbrev pub read_16 : MatchLength → Run XcaError MatchLength
  read_16 m = do
    short ← in_bounds (extract 2 input m.next_offset)
    long ← read_32 (m.next_offset + 2) short
    if ltb long.0 22
        then throws invalid_data
        else finished (record m { match_length = long.0 - 22; next_offset = long.1 })

  -- Where half a byte is not enough: a byte, or more.
  abbrev pub read_byte : MatchLength → Run XcaError MatchLength
  read_byte m = do
    byte ← in_bounds (extract 1 input m.next_offset)
    let m' = record m { match_length = byte; next_offset = m.next_offset + 1 }
    more ← if byte == 255 then read_16 m' else finished m'
    finished (record more { match_length = (more.match_length + 15) % 2 ^ 32 })

  abbrev pub read_long : ℕ → ℕ → Run XcaError MatchLength
  read_long offset half = do
    m ← read_half offset half
    more ← if m.match_length == 15 then read_byte m else finished m
    finished (record more { match_length = (more.match_length + 7) % 2 ^ 32 })

  unfoldable pub read_match_length : ℕ → ℕ → ℕ → Run XcaError MatchLength
  read_match_length bits offset half =
      if bits == 7
      then read_long offset half
      else finished (record { match_length = bits; next_offset = offset; half_offset = half })

  -- The bytes of a match.
  unfoldable pub copy_match : ℕ → ℕ → MatchLength → Progress → Run XcaError Progress
  copy_match output_size match_offset m p =
      let count = (m.match_length + 3) % 2 ^ 32 in
      if ltb (length p.written) match_offset
      then throws invalid_data
      else if ltb output_size (length p.written + count)
      then throws insufficient_output
      else finished (record p {
        in_offset = m.next_offset;
        last_length_half_offset = m.half_offset;
        written = copy_back count match_offset p.written;
      })

  unfoldable pub literal : ℕ → Progress → Run XcaError Progress
  literal output_size p =
      if leb output_size (length p.written) then throws insufficient_output else (do
        byte ← in_bounds (get_elem? input p.in_offset)
        finished (record p { in_offset = p.in_offset + 1; written = p.written ++ byte ∷ [] }))

  unfoldable pub next_match : ℕ → Progress → Run XcaError Progress
  next_match output_size p = do
    match_bytes ← in_bounds (extract 2 input p.in_offset)
    m ← read_match_length (match_bytes % 8) (p.in_offset + 2) p.last_length_half_offset
    copy_match output_size (match_bytes / 8 + 1) m p

  unfoldable pub next_flags : Progress → Run XcaError Progress
  next_flags p =
      if p.flag_count == 0
      then (do
        flags ← in_bounds (extract 4 input p.in_offset)
        finished (record p { in_offset = p.in_offset + 4; flags = flags; flag_count = 31 }))
      else finished (record p { flag_count = p.flag_count - 1 })

  abbrev pub is_literal : Progress → Bool
  is_literal p = p.flags / 2 ^ p.flag_count % 2 == 0

  -- A match needs two bytes; at a single last byte the loop is left.
  abbrev pub at_last_byte : Progress → Bool
  at_last_byte p = leb (length input) (p.in_offset + 1)

  abbrev pub round : (Progress → Run XcaError (List ℕ)) → ℕ → Progress → Run XcaError (List ℕ)
  round next output_size p =
      if is_literal p
      then (literal output_size p >>= next)
      else if at_last_byte p
      then finished p.written
      else (next_match output_size p >>= next)

  -- The loop. Each round moves the offset by one at least.
  unfoldable pub decompress_loop : ℕ → ℕ → Progress → Run XcaError (List ℕ)
  decompress_loop zero output_size p = out_of_fuel
  decompress_loop (suc fuel) output_size p =
      if ltb p.in_offset (length input)
      then (next_flags p >>= round (decompress_loop fuel output_size) output_size)
      else finished p.written

-- The bytes that are written to an output of a given size.
unfoldable pub decompress_xpress : List ℕ → ℕ → Run XcaError (List ℕ)
decompress_xpress input output_size = decompress_loop input (suc (length input)) output_size start

pub data CompressionFormat : Type 0 where
  uncompressed : CompressionFormat
  lznt1 : CompressionFormat
  xpress : CompressionFormat
  xpress_huff : CompressionFormat
  other_format : ℕ → CompressionFormat

-- Without compression the input is copied, whatever the size of the output: a longer input writes
-- behind it.
unfoldable pub ms_xca_decompress : List ℕ → ℕ → CompressionFormat → Run XcaError (List ℕ)
ms_xca_decompress input output_size uncompressed =
    if leb (length input) output_size then finished input else out_of_bounds
ms_xca_decompress input output_size lznt1 = throws not_implemented
ms_xca_decompress input output_size xpress_huff = throws not_implemented
ms_xca_decompress input output_size xpress = decompress_xpress input output_size
ms_xca_decompress input output_size (other_format value) = throws invalid_format
