-- ===== src/Msgpack/Blobs.antt =====
-- src/msgpack/msgpack.hpp: `std::string` and `std::vector<uint8_t>`, packed and unpacked. The
-- proofs are in the modules below.
pub mod RoundTrip
pub mod Long
use gb_server.Base.{
  ltb, leb, ◌==◌, if◌then◌else◌, length, take, ℕ, ◌+◌, ◌%◌, ◌&&◌, Option, none, some, List, [], ◌∷◌,
  ◌++◌,
}
use gb_server.Msgpack.Format.{bin8, bin16, bin32, str8, str16, str32, code}
use gb_server.Msgpack.Pack.{be_bytes}
use gb_server.Msgpack.Unpack.{Unpacker, fail_range, safe_data, safe_incremen, read_be_unsigned}

-- `0xa0 | len` is a sum for `len <= 31`. Nothing is written for a text that is too long.
unfoldable pub string_header : ℕ → Option (List ℕ)
string_header len =
    if leb len 31
    then some ((0xa0 + len) ∷ [])
    else if leb len 0xff
    then some (code str8 ∷ len ∷ [])
    else if leb len 0xffff
    then some (code str16 ∷ be_bytes 2 len)
    else if leb len 0xffffffff
    then some (code str32 ∷ be_bytes 4 len)
    else none

-- The early `return` of an object that is too large, and otherwise the header before the bytes.
abbrev pub with_header : Option (List ℕ) → List ℕ → List ℕ
with_header none body = []
with_header (some header) body = header ++ body

unfoldable pub pack_string : List ℕ → List ℕ
unfolding string_header
pack_string str = with_header (string_header (length str)) str

-- The thresholds are `<` the largest value of the width.
unfoldable pub bin_header : ℕ → Option (List ℕ)
bin_header size =
    if ltb size 0xff
    then some (code bin8 ∷ size ∷ [])
    else if ltb size 0xffff
    then some (code bin16 ∷ be_bytes 2 size)
    else if ltb size 0xffffffff
    then some (code bin32 ∷ be_bytes 4 size)
    else none

unfoldable pub pack_bin : List ℕ → List ℕ
unfolding bin_header
pack_bin bytes = with_header (bin_header (length bytes)) bytes

-- The end of both functions: take `size` bytes if they are there.
unfoldable pub take_body : List ℕ → ℕ × Unpacker → List ℕ × Unpacker
take_body value (size, u) =
    if leb size (length u.rest)
    then (take size u.rest, safe_incremen size u)
    else (value, fail_range u)

-- `strSize` and `binSize` are `std::size_t`, so a 16-bit or 32-bit length is read as 8 bytes.
unfoldable pub unpack_string : List ℕ → Unpacker → List ℕ × Unpacker
unfolding safe_data
unpack_string value u0 =
    let (byte, u) = safe_data u0 in
    let next = safe_incremen 1 u in
    if leb 0xa0 byte && leb byte 0xbf
    then take_body value (byte % 32, next)
    else if byte == code str32
    then take_body value (read_be_unsigned 8 next)
    else if byte == code str16
    then take_body value (read_be_unsigned 8 next)
    else if byte == code str8
    then take_body value (read_be_unsigned 1 next)
    else (value, fail_range u)

unfoldable pub unpack_bin : List ℕ → Unpacker → List ℕ × Unpacker
unfolding safe_data
unpack_bin value u0 =
    let (byte, u) = safe_data u0 in
    let next = safe_incremen 1 u in
    if byte == code bin32
    then take_body value (read_be_unsigned 8 next)
    else if byte == code bin16
    then take_body value (read_be_unsigned 8 next)
    else if byte == code bin8
    then take_body value (read_be_unsigned 1 next)
    else (value, fail_range u)
