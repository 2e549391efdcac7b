-- ===== src/Msgpack/Pack.antt =====
-- src/msgpack/msgpack.hpp: `Packer`. The packer's vector only grows, so each operation is
-- modelled by the bytes that it appends.
use gb_server.Base.{
  ltb, leb, if◌then◌else◌, ℤ, pos, negsuc, to_word, leb_ℤ, ℕ, zero, suc, ◌*◌, ◌/◌, ◌%◌, ◌^◌, ◌&&◌,
  List, [], ◌∷◌,
}
use gb_server.Msgpack.Format.{
  uint8, uint16, uint32, uint64, int8, int16, int32, int64, code, IntType, i8, i16, i32, i64, u8,
  u16, u32, u64,
}

-- The loop `for (i = count; i > 0; --i) emplace_back(uint8_t(value >> (8 * (i - 1)) & 0xff))`.
abbrev pub be_bytes : ℕ → ℕ → List ℕ
be_bytes zero value = []
be_bytes (suc i) value = (value / 2 ^ (8 * i) % 256) ∷ be_bytes i value

-- `0xe0 + 32` is 256, so the cast to `uint8_t` leaves the bit pattern of `value`.
unfoldable pub pack_int8 : ℤ → List ℕ
pack_int8 value =
    if leb_ℤ (negsuc 31) value && leb_ℤ value (negsuc 0)
    then to_word 256 value ∷ []
    else if leb_ℤ (pos 0) value && leb_ℤ value (pos 0x7f)
    then to_word 256 value ∷ []
    else code int8 ∷ to_word 256 value ∷ []

unfoldable pub pack_int16 : ℤ → List ℕ
unfolding pack_int8
pack_int16 value =
    if leb_ℤ value (pos 127) && leb_ℤ (negsuc 127) value
    then pack_int8 value
    else code int16 ∷ be_bytes 2 (to_word (2 ^ 16) value)

unfoldable pub pack_int32 : ℤ → List ℕ
unfolding pack_int16
pack_int32 value =
    if leb_ℤ value (pos 32767) && leb_ℤ (negsuc 32767) value
    then pack_int16 value
    else code int32 ∷ be_bytes 4 (to_word (2 ^ 32) value)

unfoldable pub pack_int64 : ℤ → List ℕ
unfolding pack_int32
pack_int64 value =
    if leb_ℤ value (pos 2147483647) && leb_ℤ (negsuc 2147483647) value
    then pack_int32 value
    else code int64 ∷ be_bytes 8 (to_word (2 ^ 64) value)

unfoldable pub pack_uint8 : ℕ → List ℕ
pack_uint8 value = if leb value 0x7f then value ∷ [] else code uint8 ∷ value ∷ []

unfoldable pub pack_uint16 : ℕ → List ℕ
unfolding pack_uint8
pack_uint16 value =
    if ltb 255 value then code uint16 ∷ be_bytes 2 value else pack_uint8 (value % 2 ^ 8)

unfoldable pub pack_uint32 : ℕ → List ℕ
unfolding pack_uint16
pack_uint32 value =
    if ltb 65535 value then code uint32 ∷ be_bytes 4 value else pack_uint16 (value % 2 ^ 16)

unfoldable pub pack_uint64 : ℕ → List ℕ
unfolding pack_uint32
pack_uint64 value =
    if ltb 4294967295 value then code uint64 ∷ be_bytes 8 value else pack_uint32 (value % 2 ^ 32)

-- `pack_type` at the integer types.
unfoldable pub pack_int : IntType → ℤ → List ℕ
unfolding pack_int64 pack_uint64
pack_int i8 v = pack_int8 v
pack_int i16 v = pack_int16 v
pack_int i32 v = pack_int32 v
pack_int i64 v = pack_int64 v
pack_int u8 v = pack_uint8 (to_word (2 ^ 8) v)
pack_int u16 v = pack_uint16 (to_word (2 ^ 16) v)
pack_int u32 v = pack_uint32 (to_word (2 ^ 32) v)
pack_int u64 v = pack_uint64 (to_word (2 ^ 64) v)
