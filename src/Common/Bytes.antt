-- ===== src/Common/Bytes.antt =====
-- snail/common/parser/extract.hpp: numbers of some bytes in little endian order.
use Prim.Native.Nat.{ℕ, zero, suc, ◌+◌, ◌*◌}
use mathlib.Core.List.{List, [], ◌∷◌}
use mathlib.Core.Option.{Option, none, some}
use snail_server.Common.Lists.{drop, take}

abbrev pub with_low_byte : ℕ → Option ℕ → Option ℕ
with_low_byte byte none = none
with_low_byte byte (some high) = some (byte + 256 * high)

unfoldable pub little_endian : ℕ → List ℕ → Option ℕ
little_endian zero bytes = some 0
little_endian (suc width) [] = none
little_endian (suc width) (byte ∷ bytes) = with_low_byte byte (little_endian width bytes)

-- `none` is a read behind the end of the buffer.
unfoldable pub extract : ℕ → List ℕ → ℕ → Option ℕ
extract width buffer offset = little_endian width (drop offset buffer)

-- The native byte order is little endian.
pub data ByteOrder : Type 0 where
  little : ByteOrder
  big : ByteOrder

abbrev pub reverse_onto {ℓ} : {A : Type ℓ} → List A → List A → List A
reverse_onto [] ys = ys
reverse_onto (x ∷ xs) ys = reverse_onto xs (x ∷ ys)

-- `std::byteswap` where the order is not the native one.
abbrev pub extract_in : ByteOrder → ℕ → List ℕ → ℕ → Option ℕ
extract_in little width buffer offset = extract width buffer offset
extract_in big width buffer offset =
    little_endian width (reverse_onto (take width (drop offset buffer)) [])
