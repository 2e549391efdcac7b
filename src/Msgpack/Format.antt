-- ===== src/Msgpack/Format.antt =====
-- src/msgpack/msgpack.hpp: the marker bytes (`format_t`) and the integer types that are packed.
use gb_server.Base.{ℕ, ◌^◌, ◌<◌, ◌≡◌, arith, ℤ, to_word, of_word, pos, negsuc}

pub data Format : Type 0 where
  nil false_bool true_bool : Format
  bin8 bin16 bin32 : Format
  ext8 ext16 ext32 : Format
  float32 float64 : Format
  uint8 uint16 uint32 uint64 : Format
  int8 int16 int32 int64 : Format
  fixext1 fixext2 fixext4 fixext8 fixext16 : Format
  str8 str16 str32 : Format
  array16 array32 : Format
  map16 map32 : Format
  table : Format

abbrev pub code : Format → ℕ
code nil = 0xc0
code false_bool = 0xc2
code true_bool = 0xc3
code bin8 = 0xc4
code bin16 = 0xc5
code bin32 = 0xc6
code ext8 = 0xc7
code ext16 = 0xc8
code ext32 = 0xc9
code float32 = 0xca
code float64 = 0xcb
code uint8 = 0xcc
code uint16 = 0xcd
code uint32 = 0xce
code uint64 = 0xcf
code int8 = 0xd0
code int16 = 0xd1
code int32 = 0xd2
code int64 = 0xd3
code fixext1 = 0xd4
code fixext2 = 0xd5
code fixext4 = 0xd6
code fixext8 = 0xd7
code fixext16 = 0xd8
code str8 = 0xd9
code str16 = 0xda
code str32 = 0xdb
code array16 = 0xdc
code array32 = 0xdd
code map16 = 0xde
code map32 = 0xdf
code table = 0xe0

-- The integer types for which `pack_type` and `unpack_type` are specialised.
pub data IntType : Type 0 where
  i8 i16 i32 i64 u8 u16 u32 u64 : IntType

-- The values of the type.
abbrev pub InRange : IntType → ℤ → Type 0
InRange i8 (pos n) = n < 2 ^ 7
InRange i8 (negsuc n) = n < 2 ^ 7
InRange i16 (pos n) = n < 2 ^ 15
InRange i16 (negsuc n) = n < 2 ^ 15
InRange i32 (pos n) = n < 2 ^ 31
InRange i32 (negsuc n) = n < 2 ^ 31
InRange i64 (pos n) = n < 2 ^ 63
InRange i64 (negsuc n) = n < 2 ^ 63
InRange u8 (pos n) = n < 2 ^ 8
InRange u16 (pos n) = n < 2 ^ 16
InRange u32 (pos n) = n < 2 ^ 32
InRange u64 (pos n) = n < 2 ^ 64
InRange _ (negsuc n) = ⊥

-- static_cast of an integer to the type, which wraps.
abbrev pub cast : IntType → ℤ → ℤ
cast i8 v = of_word (2 ^ 8) (to_word (2 ^ 8) v)
cast i16 v = of_word (2 ^ 16) (to_word (2 ^ 16) v)
cast i32 v = of_word (2 ^ 32) (to_word (2 ^ 32) v)
cast i64 v = of_word (2 ^ 64) (to_word (2 ^ 64) v)
cast u8 v = pos (to_word (2 ^ 8) v)
cast u16 v = pos (to_word (2 ^ 16) v)
cast u32 v = pos (to_word (2 ^ 32) v)
cast u64 v = pos (to_word (2 ^ 64) v)

pub cast-InRange : (t : IntType) (v : ℤ) → InRange t v → cast t v ≡ v
cast-InRange i8 (pos n) h = ground arith
cast-InRange i8 (negsuc n) h = ground arith
cast-InRange i16 (pos n) h = ground arith
cast-InRange i16 (negsuc n) h = ground arith
cast-InRange i32 (pos n) h = ground arith
cast-InRange i32 (negsuc n) h = ground arith
cast-InRange i64 (pos n) h = ground arith
cast-InRange i64 (negsuc n) h = ground arith
cast-InRange u8 (pos n) h = ground arith
cast-InRange u16 (pos n) h = ground arith
cast-InRange u32 (pos n) h = ground arith
cast-InRange u64 (pos n) h = ground arith
cast-InRange _ (negsuc n) h = absurd h
