-- ===== src/Jsonrpc/Transport/Laws.antt =====
-- What the stream reader and writer guarantee together, and what the reader does at the end of
-- its stream.
use snail_server.Common.{
  ℕ, zero, suc, ◌^◌, ◌<◌, ◌≡◌, refl, sym, ap, subst, ◌∙◌, true, false, List, [], ◌∷◌, ◌++◌, none,
  some, length, length-append, drop-length_append, arith, append_assoc,
}
use snail_server.Text.Codes.{codes}
use snail_server.Text.Trim.{is_space}
use snail_server.Jsonrpc.Transport.Decimal.{
  decimal, is_digit, from_digits, from_digits-decimal, decimal-AllDigits, AllDigits, decimal_first,
}
use snail_server.Jsonrpc.Transport.{
  skip_spaces, first_is_digit, from_chars, goes_on, ends, length_line, header_line, Stream,
  split_line, getline, header, read_header, read_content, message, content_of, read, write,
}

split_line_digits :
    (cs rest : List ℕ)
    → AllDigits cs
    → split_line (cs ++ 13 ∷ 10 ∷ rest) ≡ (cs ++ 13 ∷ [], rest, true)
unfolding split_line is_digit
split_line_digits [] rest a = refl
split_line_digits (c ∷ cs) rest (d, a) = ground (arith, split_line_digits cs rest a)

skip_spaces_digit : (c : ℕ) (cs : List ℕ) → is_digit c ≡ true → skip_spaces (c ∷ cs) ≡ c ∷ cs
unfolding skip_spaces is_digit is_space
skip_spaces_digit c cs d = ground arith

stops_at_return : (n : ℕ) → from_digits n (13 ∷ []) ≡ n
unfolding from_digits is_digit
stops_at_return n = refl

from_chars-decimal : (n : ℕ) → n < 2 ^ 64 → from_chars (skip_spaces (decimal n ++ 13 ∷ [])) ≡ some n
unfolding from_chars
from_chars-decimal n h =
    let full = decimal n ++ 13 ∷ [] in
    let (c, cs, e) = decimal_first n in
    let first : is_digit c ≡ true = (subst AllDigits e (decimal-AllDigits n)).0 in
    let skipped : skip_spaces full ≡ full =
      ap (λ x. skip_spaces (x ++ 13 ∷ [])) e
      ∙ skip_spaces_digit c (cs ++ 13 ∷ []) first
      ∙ ap (λ x. x ++ 13 ∷ []) (sym e) in
    let begins : first_is_digit full ≡ true = ap (λ x. first_is_digit (x ++ 13 ∷ [])) e ∙ first in
    let value : from_digits 0 full ≡ n = from_digits-decimal n (13 ∷ []) ∙ stops_at_return n in
    rw skipped (ground (arith, begins, value))

length_header_line :
    (n : ℕ)
    → n < 2 ^ 64
    → header_line 0 (codes "Content-Length: " ++ (decimal n ++ 13 ∷ [])) ≡ goes_on n
unfolding header_line skip_spaces is_space
length_header_line n h = ap length_line (from_chars-decimal n h)

last_header_line : (n : ℕ) → header_line n (13 ∷ []) ≡ ends
unfolding header_line
last_header_line n = refl

split_first_line :
    (n : ℕ) (rest : List ℕ)
    → split_line (codes "Content-Length: " ++ (decimal n ++ 13 ∷ 10 ∷ rest))
      ≡ (codes "Content-Length: " ++ (decimal n ++ 13 ∷ []), rest, true)
unfolding split_line
split_first_line n rest = rw (split_line_digits (decimal n) rest (decimal-AllDigits n))

read_content-append : (xs rest : List ℕ) → read_content (length xs) (xs ++ rest) ≡ xs
unfolding read_content
read_content-append [] rest = refl
read_content-append (x ∷ xs) rest = ap (◌∷◌ x) (read_content-append xs rest)

abbrev on_stream : List ℕ → Stream
on_stream bytes = record { bytes = bytes; good = true }

read_header-goes_on :
    (fuel n k : ℕ) (s t : Stream) (line new : List ℕ)
    → getline s line ≡ (t, new)
    → header_line n new ≡ goes_on k
    → read_header (suc fuel) s line n ≡ read_header fuel t new k
unfolding read_header
read_header-goes_on fuel n k s t line new g h =
    let e : header_line n (getline s line).1 ≡ goes_on k = ap (λ x. header_line n x.1) g ∙ h in
    rw (e, read_header) (ap (λ x. read_header fuel x.0 x.1 k) g)

read_header-ends :
    (fuel n : ℕ) (s t : Stream) (line new : List ℕ)
    → getline s line ≡ (t, new)
    → header_line n new ≡ ends
    → read_header (suc fuel) s line n ≡ some (header n t)
unfolding read_header
read_header-ends fuel n s t line new g h =
    let e : header_line n (getline s line).1 ≡ ends = ap (λ x. header_line n x.1) g ∙ h in
    rw (e, read_header) (ap (λ x. some (header n x.0)) g)

getline_found :
    (bytes line new rest : List ℕ)
    → split_line bytes ≡ (new, rest, true)
    → getline (on_stream bytes) line ≡ (on_stream rest, new)
unfolding getline
getline_found bytes line new rest e = rw e

read_header-write :
    (fuel n : ℕ) (rest : List ℕ)
    → n < 2 ^ 64
    → read_header
        (suc (suc fuel))
        (on_stream (codes "Content-Length: " ++ (decimal n ++ 13 ∷ 10 ∷ 13 ∷ 10 ∷ rest)))
        []
        0
      ≡ some (header n (on_stream rest))
unfolding split_line
read_header-write fuel n rest h =
    let first = codes "Content-Length: " ++ (decimal n ++ 13 ∷ []) in
    read_header-goes_on (suc fuel) 0 n _ (on_stream (13 ∷ 10 ∷ rest)) [] first
      (getline_found _ [] first (13 ∷ 10 ∷ rest) (split_first_line n (13 ∷ 10 ∷ rest)))
      (length_header_line n h)
    ∙ read_header-ends fuel n _ (on_stream rest) first (13 ∷ [])
        (getline_found (13 ∷ 10 ∷ rest) first (13 ∷ []) rest refl) (last_header_line n)

-- Whatever is written is read back, byte for byte, and the stream stands right behind it: two
-- rounds of the header loop are enough.
pub read-write :
    (fuel : ℕ) (content rest : List ℕ)
    → length content < 2 ^ 64
    → read (suc (suc fuel)) (record { bytes = write content ++ rest; good = true })
      ≡ some (message content (record { bytes = rest; good = true }))
unfolding read write
read-write fuel content rest h =
    let n = length content in
    let regroup : write content ++ rest
        ≡ codes "Content-Length: " ++ (decimal n ++ 13 ∷ 10 ∷ 13 ∷ 10 ∷ (content ++ rest)) =
      ap (λ x. codes "Content-Length: " ++ x)
        (append_assoc (decimal n) (13 ∷ 10 ∷ 13 ∷ 10 ∷ content) rest) in
    ap (λ x. content_of (read_header (suc (suc fuel)) (on_stream x) [] 0)) regroup
    ∙ ap content_of (read_header-write fuel n (content ++ rest) h)
    ∙ ground (
      arith,
      read_content-append content rest,
      drop-length_append content rest,
      length-append content rest,
    )

empty_line : (n : ℕ) → header_line n [] ≡ goes_on n
unfolding header_line
empty_line n = refl

read_header_not_good :
    (fuel n : ℕ) (bytes : List ℕ)
    → read_header fuel (record { bytes = bytes; good = false }) [] n ≡ none
unfolding getline
read_header_not_good zero n bytes = unfold read_header in refl
read_header_not_good (suc fuel) n bytes =
    read_header-goes_on fuel n n _ (record { bytes = bytes; good = false }) [] [] refl
      (empty_line n)
    ∙ read_header_not_good fuel n bytes

-- A stream at its end, such as a connection that the client has closed: the loop over header lines
-- never ends, with whatever fuel.
pub read_at_end : (fuel : ℕ) → read fuel (record { bytes = []; good = true }) ≡ none
unfolding read getline split_line
read_at_end zero = unfold read_header in refl
read_at_end (suc fuel) = ap content_of (
    read_header-goes_on fuel 0 0 (on_stream []) (record { bytes = []; good = false }) [] [] refl
      (empty_line 0)
    ∙ read_header_not_good fuel 0 [])
