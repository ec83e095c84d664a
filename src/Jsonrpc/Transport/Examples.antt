-- ===== src/Jsonrpc/Transport/Examples.antt =====
-- Messages on a stream, and the theorems at them.
use snail_server.Common.{◌≡◌, ◌++◌, refl, true, [], none, some, arith}
use snail_server.Text.Codes.{codes}
use snail_server.Jsonrpc.Transport.Decimal.{decimal}
use snail_server.Jsonrpc.Transport.{
  starts_with, header_line, split_line, getline, read_header, message, transport_error, read, write,
}
use snail_server.Jsonrpc.Transport.Laws.{read-write, read_at_end}

read-write_example :
    read 2 (record { bytes = write (codes "{}") ++ codes "more"; good = true })
    ≡ some (message (codes "{}") (record { bytes = codes "more"; good = true }))
read-write_example = read-write 0 (codes "{}") (codes "more") (omega arith)

read_at_end_example : read 1000 (record { bytes = []; good = true }) ≡ none
read_at_end_example = read_at_end 1000

written : write (codes "ab") ≡ codes "Content-Length: 2\r\n\r\nab"
unfolding write decimal
written = refl

bad_header :
    read 5 (record { bytes = codes "Length: 2\r\n\r\nab"; good = true }) ≡ some transport_error
unfolding read read_header getline split_line header_line starts_with
bad_header = refl
