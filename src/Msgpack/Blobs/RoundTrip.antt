-- ===== src/Msgpack/Blobs/RoundTrip.antt =====
-- Short texts and byte vectors, packed and unpacked (src/msgpack/msgpack.hpp).
use gb_server.Base.{
  leb, lt→ltb, leb→le, le→leb, Bool-cases, length, length-append, take-length-append,
  drop-length-append, ℕ, ◌+◌, ◌%◌, ◌^◌, ◌≤◌, ◌<◌, ◌≡◌, inl, inr, true, List, ◌∷◌, ◌++◌, arith,
}
use mathlib.Core.Path.{subst}
use gb_server.Msgpack.Blobs.{pack_string, pack_bin, take_body, unpack_string, unpack_bin}
use gb_server.Msgpack.Numbers.{at, safe_incremen-cons, read_be_unsigned-be_bytes, be_bytes_one}
use gb_server.Msgpack.Unpack.{UnpackErrorType, safe_incremen, read_be_unsigned}

-- A body of the announced size is taken whole.
pub take_body-append :
    (value body bs : List ℕ) (e : UnpackErrorType)
    → take_body value (length body, at (body ++ bs) e) ≡ (body, at bs e)
unfolding take_body safe_incremen
take_body-append value body bs e =
    let enough : leb (length body) (length (body ++ bs)) ≡ true =
      le→leb _ _ (omega (arith, length-append body bs)) in
    rw (enough, take-length-append body bs, drop-length-append body bs)

pub fix_size : (len : ℕ) → len ≤ 31 → (0xa0 + len) % 32 ≡ len
fix_size len h = omega arith

-- A one-byte length is read back.
read_be_unsigned_byte :
    (n : ℕ) (bs : List ℕ) (e : UnpackErrorType)
    → n < 2 ^ 8
    → read_be_unsigned 1 (at (n ∷ bs) e) ≡ (n, at bs e)
read_be_unsigned_byte n bs e h =
    subst (λ xs. read_be_unsigned 1 (at (xs ++ bs) e) ≡ (n, at bs e)) (be_bytes_one n h)
      (read_be_unsigned-be_bytes 1 n bs e h)

-- A text of up to 255 bytes, packed and followed by any bytes, is unpacked as the same text; the
-- bytes behind it and the error code stay as they are.
pub unpack_string-pack_string :
    (str old bs : List ℕ) (e : UnpackErrorType)
    → length str ≤ 255
    → unpack_string old (at (pack_string str ++ bs) e) ≡ (str, at bs e)
unfolding unpack_string pack_string
unpack_string-pack_string str old bs e h = elim (Bool-cases (leb (length str) 31)) [
  | inl small ↦
      let le : length str ≤ 31 = leb→le _ _ small in
      rw
        (
          small,
          le→leb 0xa0 (0xa0 + length str) (omega arith),
          le→leb (0xa0 + length str) 0xbf (omega arith),
          safe_incremen-cons,
          fix_size (length str) le,
        )
        (take_body-append old str bs e)
  | inr large ↦
      rw
        (
          large,
          le→leb _ _ h,
          safe_incremen-cons,
          read_be_unsigned_byte (length str) (str ++ bs) e (omega arith),
        )
        (take_body-append old str bs e)
]

-- A vector of fewer than 255 bytes, packed and followed by any bytes, is unpacked as the same
-- vector; the bytes behind it and the error code stay as they are.
pub unpack_bin-pack_bin :
    (bytes old bs : List ℕ) (e : UnpackErrorType)
    → length bytes < 255
    → unpack_bin old (at (pack_bin bytes ++ bs) e) ≡ (bytes, at bs e)
unfolding unpack_bin pack_bin
unpack_bin-pack_bin bytes old bs e h =
    rw
      (
        lt→ltb _ _ h,
        safe_incremen-cons,
        read_be_unsigned_byte (length bytes) (bytes ++ bs) e (omega arith),
      )
      (take_body-append old bytes bs e)
