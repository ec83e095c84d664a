-- ===== src/Jsonrpc/Transport.antt =====
-- snail/jsonrpc/transport/stream_message_reader.cpp and stream_message_writer.cpp. A stream is the
-- bytes that are left and whether it is good; the loop over header lines takes fuel, and `none` is
-- a loop that has not ended yet. `std::isspace` is that of the "C" locale.
pub mod Decimal
pub mod Laws
pub mod Examples
use snail_server.Common.{
  ℕ, zero, suc, ◌+◌, ◌-◌, ◌*◌, ◌^◌, Bool, true, false, ◌&&◌, List, [], ◌∷◌, ◌++◌, Option, none,
  some, length, take, drop, ◌==◌, ltb, leb, if◌then◌else◌,
}
use snail_server.Text.Codes.{codes}
use snail_server.Text.Trim.{is_space}
use Decimal.{decimal, is_digit, from_digits}

abbrev pub content_length_header_name : List ℕ
content_length_header_name = codes "Content-Length:"

abbrev pub content_type_header_name : List ℕ
content_type_header_name = codes "Content-Type:"

pub starts_with : List ℕ → List ℕ → Bool
starts_with [] input = true
starts_with (p ∷ ps) [] = false
starts_with (p ∷ ps) (c ∷ cs) = c == p && starts_with ps cs

pub skip_spaces : List ℕ → List ℕ
skip_spaces [] = []
skip_spaces (c ∷ cs) = let rest = skip_spaces cs in if is_space c then rest else c ∷ cs

abbrev pub first_is_digit : List ℕ → Bool
first_is_digit [] = false
first_is_digit (c ∷ cs) = is_digit c

-- `std::from_chars` to `std::size_t`: `none` is an error.
pub from_chars : List ℕ → Option ℕ
unfolding is_digit from_digits
from_chars cs =
    let value = from_digits 0 cs in
    if first_is_digit cs then (if ltb value (2 ^ 64) then some value else none) else none

-- What a header line does to the header read so far.
pub data Line : Type 0 where
  goes_on : ℕ → Line
  ends : Line
  fails : Line

abbrev pub length_line : Option ℕ → Line
length_line none = fails
length_line (some n) = goes_on n

pub header_line : ℕ → List ℕ → Line
unfolding starts_with
header_line n line =
    if starts_with content_length_header_name line
    then length_line (from_chars (skip_spaces (drop (length content_length_header_name) line)))
    else if starts_with content_type_header_name line
    then goes_on n
    else if length line == 0
    then goes_on n
    else if length line == 1 && starts_with (13 ∷ []) line
    then ends
    else fails

pub record Stream : Type 0 where
  pub bytes : List ℕ
  pub good : Bool

-- The bytes up to a line feed, what follows it, and whether there was one.
pub split_line : List ℕ → List ℕ × List ℕ × Bool
split_line [] = ([], [], false)
split_line (c ∷ cs) =
    let (line, rest, found) = split_line cs in
    if c == 10 then ([], cs, true) else (c ∷ line, rest, found)

-- `std::getline`: on a stream that is no longer good the line is left as it was.
pub getline : Stream → List ℕ → Stream × List ℕ
getline s line =
    let (new, rest, found) = split_line s.bytes in
    if s.good then (record { bytes = rest; good = found }, new) else (s, line)

pub data Header : Type 0 where
  header : ℕ → Stream → Header
  invalid_header : Header

pub read_header : ℕ → Stream → List ℕ → ℕ → Option Header
read_header zero s line n = none
read_header (suc fuel) s line n =
    let (s', line') = getline s line in
    elim (header_line n line') [
      | goes_on n' ↦ read_header fuel s' line' n'
      | ends ↦ some (header n s')
      | fails ↦ some invalid_header
    ]

-- `resize` fills with zeros, and `read` overwrites as much as there is.
pub read_content : ℕ → List ℕ → List ℕ
read_content zero bytes = []
read_content (suc n) [] = 0 ∷ read_content n []
read_content (suc n) (b ∷ bytes) = b ∷ read_content n bytes

pub data Message : Type 0 where
  message : List ℕ → Stream → Message
  transport_error : Message

abbrev pub content_of : Option Header → Option Message
content_of none = none
content_of (some invalid_header) = some transport_error
content_of (some (header n s)) = some (
    message (read_content n s.bytes)
      (record { bytes = drop n s.bytes; good = s.good && leb n (length s.bytes) }))

pub read : ℕ → Stream → Option Message
read fuel s = content_of (read_header fuel s [] 0)

-- stream_message_writer.cpp.
pub write : List ℕ → List ℕ
write content =
    codes "Content-Length: " ++ (decimal (length content) ++ (13 ∷ 10 ∷ 13 ∷ 10 ∷ content))
