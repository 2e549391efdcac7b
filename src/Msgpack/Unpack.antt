-- ===== src/Msgpack/Unpack.antt =====
-- src/msgpack/msgpack.hpp: `Unpacker`. The bytes from `dataPointer_` to `dataEnd_` are the field
-- `rest`; pointers do not wrap. A read past `dataEnd_` with no test is the fault `none`.
use gb_server.Base.{
  leb, ◌==◌, if◌then◌else◌, length, take, drop, ℤ, pos, of_word, ℕ, zero, suc, ◌+◌, ◌*◌, ◌%◌, ◌^◌,
  Bool, Option, none, some, List, [], ◌∷◌,
}
use gb_server.Msgpack.Format.{
  float32, float64, uint8, uint16, uint32, uint64, int8, int16, int32, int64, code, IntType, cast,
}

pub data UnpackErrorType : Type 0 where
  e_none e_out_range : UnpackErrorType

pub record Unpacker : Type 0 where
  pub rest : List ℕ
  pub ec : UnpackErrorType

abbrev pub Reader : Type 0 → Type 0
Reader A = Unpacker → Option (A × Unpacker)

infixl 5 ◌>>=◌
abbrev pub ◌>>=◌ : {A B : Type 0} → Reader A → (A → Reader B) → Reader B
◌>>=◌ m f u = elim (m u) [ none ↦ none | some (a, u') ↦ f a u' ]

abbrev pub pure : {A : Type 0} → A → Reader A
pure a u = some (a, u)

abbrev pub fail_range : Unpacker → Unpacker
fail_range u = record u { ec = e_out_range }

unfoldable pub empty : Unpacker → Bool
empty u = leb (length u.rest) 0

first_byte : List ℕ → Unpacker → ℕ × Unpacker
first_byte [] u = (0, fail_range u)
first_byte (b ∷ bs) u = (b, u)

-- The byte at the pointer; at the end it is 0 and the error is set.
unfoldable pub safe_data : Unpacker → ℕ × Unpacker
unfolding first_byte
safe_data u = first_byte u.rest u

unfoldable pub safe_incremen : ℕ → Unpacker → Unpacker
safe_incremen size u =
    if leb size (length u.rest)
    then record u { rest = drop size u.rest }
    else record { rest = []; ec = e_out_range }

-- The loop of `read_be_unsigned` and `read_be_signed`: `count` rounds of
-- `out = (out << 8) | safe_data(); safe_incremen();` in an unsigned type of modulus `m`. The low
-- byte of the shifted value is 0, so the bitwise or is a sum.
unfoldable pub read_be_loop : ℕ → ℕ → ℕ → Unpacker → ℕ × Unpacker
unfolding safe_data
read_be_loop m zero out u = (out, u)
read_be_loop m (suc count) out u =
    let (b, u') = safe_data u in read_be_loop m count ((out * 256 + b) % m) (safe_incremen 1 u')

-- `size` is sizeof(Int).
unfoldable pub read_be_unsigned : ℕ → Unpacker → ℕ × Unpacker
read_be_unsigned size u = read_be_loop (2 ^ (8 * size)) size 0 u

-- The smallest number of the type, whose negation overflows in the source, comes back as itself.
unfoldable pub read_be_signed : ℕ → Unpacker → ℤ × Unpacker
read_be_signed size u =
    let (w, u') = read_be_loop (2 ^ (8 * size)) size 0 u in (of_word (2 ^ (8 * size)) w, u')

-- The casts to the target type of `unpack_number`. Those from floating point, given by the
-- bytes of the number in memory, are the machine's.
pub record Casts (T : Type 0) : Type 0 where
  pub of_int : ℤ → T
  pub of_float : List ℕ → T
  pub of_double : List ℕ → T

abbrev pub int_casts : (List ℕ → ℤ) → (List ℕ → ℤ) → IntType → Casts ℤ
int_casts float_to_int double_to_int t = record {
  of_int = λ v. cast t v;
  of_float = λ bytes. cast t (float_to_int bytes);
  of_double = λ bytes. cast t (double_to_int bytes);
}

-- memcpy of `size` bytes from the pointer, which is not tested against the end.
unfoldable pub copy_raw : ℕ → Reader (List ℕ)
copy_raw size u = if leb size (length u.rest) then some (take size u.rest, u) else none

module _ {T : Type 0} (c : Casts T) where
  of_unsigned : ℕ × Unpacker → Option (T × Unpacker)
  of_unsigned (n, u) = some (c.of_int (pos n), u)

  of_signed : ℤ × Unpacker → Option (T × Unpacker)
  of_signed (v, u) = some (c.of_int v, u)

  of_raw : ℕ → (List ℕ → T) → Reader T
  of_raw size conv u = (copy_raw size >>= λ bytes u'. pure (conv bytes) (safe_incremen size u')) u

  unfoldable pub unpack_number : T → Reader T
  unfolding safe_data of_unsigned of_signed of_raw
  unpack_number val u0 =
      let (byte, u) = safe_data u0 in
      let next = safe_incremen 1 u in
      if leb byte 0x7f
      then some (c.of_int (pos byte), next)
      else if leb 0xe0 byte
      then some (c.of_int (of_word (2 ^ 8) byte), next)
      else if byte == code uint64
      then of_unsigned (read_be_unsigned 8 next)
      else if byte == code uint32
      then of_unsigned (read_be_unsigned 4 next)
      else if byte == code uint16
      then of_unsigned (read_be_unsigned 2 next)
      else if byte == code uint8
      then of_unsigned (read_be_unsigned 1 next)
      else if byte == code int64
      then of_signed (read_be_signed 8 next)
      else if byte == code int32
      then of_signed (read_be_signed 4 next)
      else if byte == code int16
      then of_signed (read_be_signed 2 next)
      else if byte == code int8
      then of_signed (read_be_signed 1 next)
      else if byte == code float32
      then of_raw 4 c.of_float next
      else if byte == code float64
      then of_raw 8 c.of_double next
      else some (val, fail_range u)
