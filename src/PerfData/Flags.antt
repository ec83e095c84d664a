-- ===== src/PerfData/Flags.antt =====
-- snail/common/bit_flags.hpp: a set of bits is the number that they are.
use snail_server.Common.{ℕ, zero, suc, ◌+◌, ◌/◌, ◌%◌, ◌^◌, Bool, ◌==◌}

unfoldable pub test : ℕ → ℕ → Bool
test flag bits = (bits / 2 ^ flag) % 2 == 1

abbrev pub only : ℕ → ℕ
only flag = 2 ^ flag

-- Of the lowest `width` bits.
unfoldable pub count : ℕ → ℕ → ℕ
count zero bits = 0
count (suc width) bits = bits % 2 + count width (bits / 2)
