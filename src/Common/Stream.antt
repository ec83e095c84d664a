-- ===== src/Common/Stream.antt =====
-- `std::ifstream` as snail/etl/etl_file.cpp and snail/common/chunked_reader.hpp use it.
use snail_server.Common.{
  ℕ, ◌+◌, List, [], Bool, true, Option, none, some, length, take, drop, ltb, if◌then◌else◌,
}

-- `failed` is `failbit`, which stays: nothing clears it.
pub record FileStream : Type 0 where
  pub content : List ℕ
  pub position : ℕ
  pub failed : Bool

abbrev pub seekg : ℕ → FileStream → FileStream
seekg position stream = if stream.failed then stream else record stream { position = position }

-- None for -1.
abbrev pub tellg : FileStream → Option ℕ
tellg stream = if stream.failed then none else some stream.position

-- What is read, which is shorter where the file ends.
abbrev pub bytes_read : ℕ → FileStream → List ℕ
bytes_read count stream =
    if stream.failed then [] else take count (drop stream.position stream.content)

abbrev pub read_stream : ℕ → FileStream → List ℕ × FileStream
read_stream count stream =
    let bytes = bytes_read count stream in
    (
      bytes,
      if stream.failed
          then stream
          else if ltb (length bytes) count
          then record stream { failed = true }
          else record stream { position = stream.position + count },
    )
