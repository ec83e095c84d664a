-- ===== src/Xca/Examples.antt =====
-- Runs of the decompression.
use snail_server.Common.{ℕ, ◌≡◌, refl, List, [], ◌∷◌, arith}
use snail_server.Common.Bytes.{extract, little_endian}
use snail_server.Xca.Copy.{copy_back}
use snail_server.Xca.Bounds.{Fits, decompress_xpress-Fits}
use snail_server.Xca.Literals.{literal_stream, decompress_xpress-literal_stream}
use snail_server.Common.Run.{finished, Ensures}
use snail_server.Xca.{
  decompress_xpress, decompress_loop, next_flags, literal, next_match, read_match_length,
  copy_match,
}

-- "abc" and a match of three bytes at distance three: the flags 0x1FFFFFFF say that the fourth token
-- is a match.
abbrev packed : List ℕ
packed = 255 ∷ 255 ∷ 255 ∷ 31 ∷ 97 ∷ 98 ∷ 99 ∷ 16 ∷ 0 ∷ []

packed_twice : decompress_xpress packed 6 ≡ finished (97 ∷ 98 ∷ 99 ∷ 97 ∷ 98 ∷ 99 ∷ [])
unfolding decompress_xpress decompress_loop next_flags literal next_match read_match_length
    copy_match copy_back extract little_endian
packed_twice = refl

abbrev bytes : List ℕ
bytes = 1 ∷ 2 ∷ []

decompress_xpress-Fits_example : Ensures (Fits 6) (decompress_xpress packed 6)
decompress_xpress-Fits_example = decompress_xpress-Fits packed 6

decompress_xpress-literal_stream_example :
    decompress_xpress (literal_stream 0 bytes) 2 ≡ finished bytes
decompress_xpress-literal_stream_example = decompress_xpress-literal_stream bytes 2 (omega arith)
