-- ===== src/PerfData/Streams.antt =====
-- snail/common/parser/read.hpp: integers and texts from a stream.
use snail_server.Common.{ℕ, zero, suc, ◌+◌, ◌%◌, ◌^◌, List, [], ◌∷◌, ◌==◌, if◌then◌else◌}
use snail_server.Common.Bytes.{ByteOrder, extract_in}
use snail_server.Common.Run.{Run, finished, out_of_bounds, in_bounds, ◌>>=◌}
use snail_server.Common.Stream.{FileStream, read_stream}
use snail_server.PerfData.Attributes.{PerfError}
use snail_server.PerfData.Records.{until_zero}
use snail_server.Text.Codes.{Text}

-- What is read from a stream. An integer that was not read to its end has no value.
abbrev pub Reads {ℓ} : Type ℓ → Type ℓ
Reads T = FileStream → Run PerfError (T × FileStream)

abbrev pub int_of : ByteOrder → ℕ → List ℕ × FileStream → Run PerfError (ℕ × FileStream)
int_of order width (bytes, stream) =
    in_bounds (extract_in order width bytes 0) >>= (λ value. finished (value, stream))

abbrev pub read_int : ByteOrder → ℕ → Reads ℕ
read_int order width stream = int_of order width (read_stream width stream)

-- The buffer is all zeros before, and has one more byte; a length of 2 ^ 32 - 1 leaves it empty.
abbrev pub text_of : List ℕ × FileStream → Run PerfError (Text × FileStream)
text_of (bytes, stream) = finished (until_zero bytes, stream)

abbrev pub read_text : ℕ × FileStream → Run PerfError (Text × FileStream)
read_text (size, stream) =
    if (size + 1) % 2 ^ 32 == 0 then out_of_bounds else text_of (read_stream size stream)

abbrev pub read_string : ByteOrder → Reads Text
read_string order stream = read_int order 4 stream >>= read_text

unfoldable pub read_many {ℓ} : {T : Type ℓ} → Reads T → ℕ → Reads (List T)
read_many read zero stream = finished ([], stream)
read_many read (suc n) stream =
    read stream
    >>= (λ first. read_many read n first.1 >>= (λ others. finished (first.0 ∷ others.0, others.1)))

abbrev pub read_string_list : ByteOrder → Reads (List Text)
read_string_list order stream =
    read_int order 4 stream >>= (λ n. read_many (read_string order) n.0 n.1)
