-- ===== src/Etl/Span.antt =====
-- `std::span::subspan`, with what it leaves undefined, and the unsigned numbers of its arguments.
use snail_server.Common.{
  ℕ, ◌+◌, ◌-◌, ◌%◌, ◌^◌, List, Option, none, some, length, take, drop, leb, ◌==◌, if◌then◌else◌,
}

-- Difference of two `std::size_t`.
abbrev pub minus_size : ℕ → ℕ → ℕ
minus_size a b = (a + 2 ^ 64 - b) % 2 ^ 64

abbrev pub subspan_from : List ℕ → ℕ → Option (List ℕ)
subspan_from buffer offset = if leb offset (length buffer) then some (drop offset buffer) else none

-- A count of 2^64 - 1 is `std::dynamic_extent`: all that is left.
unfoldable pub subspan : List ℕ → ℕ → ℕ → Option (List ℕ)
subspan buffer offset count =
    if count == 2 ^ 64 - 1
    then subspan_from buffer offset
    else (if leb (offset + count) (length buffer)
        then some (take count (drop offset buffer))
        else none)
