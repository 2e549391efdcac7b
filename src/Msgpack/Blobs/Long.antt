-- ===== src/Msgpack/Blobs/Long.antt =====
-- Long texts and byte vectors: the packer writes a 2-byte length and the unpacker reads 8 bytes.
use gb_server.Base.{
  lt→ltb, le→leb, lt→leb_false, lt→ltb_false, byte_rows, pow_pos, pow_byte, length, All,
  length-append, ℕ, zero, suc, ◌+◌, ◌*◌, ◌/◌, ◌%◌, ◌^◌, ◌≤◌, ◌<◌, ◌≡◌, refl, List, [], ◌∷◌, ◌++◌,
  arith,
}
use native.Mathlib.Nat.{le_trans, mod-eq_of_lt}
use gb_server.Msgpack.Blobs.{pack_string, pack_bin, take_body, unpack_string, unpack_bin}
use gb_server.Msgpack.Numbers.{at, safe_incremen-cons, read_step}
use gb_server.Msgpack.Pack.{be_bytes}
use gb_server.Msgpack.Unpack.{
  UnpackErrorType, e_out_range, Unpacker, fail_range, safe_incremen, read_be_loop, read_be_unsigned,
}

read_step_end :
    (m k out : ℕ) (e : UnpackErrorType)
    → read_be_loop m (suc k) out (at [] e)
      ≡ read_be_loop m k ((out * 256 + 0) % m) (at [] e_out_range)
unfolding read_be_loop safe_incremen
read_step_end m k out e = refl

-- One more byte keeps room for the bytes behind it.
room_step :
    (m k out b : ℕ)
    → b < 256
    → out * 2 ^ (8 * suc k) + 2 ^ (8 * suc k) ≤ m
    → ((out * 256 + b) * 2 ^ (8 * k) + 2 ^ (8 * k) ≤ m)
      × (out * 256 + b < m)
      × (out * 2 ^ (8 * suc k) ≤ (out * 256 + b) * 2 ^ (8 * k))
room_step m k out b hb h =
    let e : 2 ^ (8 * suc k) ≡ 256 * 2 ^ (8 * k) = pow_byte k in
    let rows : b * 2 ^ (8 * k) + 2 ^ (8 * k) ≤ 256 * 2 ^ (8 * k) = byte_rows b (2 ^ (8 * k)) hb in
    let all : (out * 256 + b) * 2 ^ (8 * k) + 2 ^ (8 * k) ≤ m = omega (arith, rw e at h) in
    (all, low (out * 256 + b) (2 ^ (8 * k)) m (pow_pos (8 * k)) all, rw e (omega arith))
  where
    low : (a p n : ℕ) → 0 < p → a * p + p ≤ n → a < n
    low a p n h k = grind arith

-- The value read so far is never lost, while the type has room for the bytes to come, and no
-- byte appears.
read_be_loop-ge :
    (m k out : ℕ) (bs : List ℕ) (e : UnpackErrorType)
    → out * 2 ^ (8 * k) + 2 ^ (8 * k) ≤ m
    → All (λ b. b < 256) bs
    → (out * 2 ^ (8 * k) ≤ (read_be_loop m k out (at bs e)).0)
      × (length (read_be_loop m k out (at bs e)).1.rest ≤ length bs)
read_be_loop-ge m zero out bs e h bytes = unfold read_be_loop in (omega arith, omega arith)
read_be_loop-ge m (suc k) out [] e h bytes =
    let (room, lt, mono) = room_step m k out 0 (omega arith) h in
    let (ge, short) = read_be_loop-ge m k (out * 256 + 0) [] e_out_range room tt in
    rw (read_step_end m k out e, mod-eq_of_lt lt) (le_trans mono ge, short)
read_be_loop-ge m (suc k) out (b ∷ bs) e h bytes =
    let (room, lt, mono) = room_step m k out b bytes.0 h in
    let (ge, short) = read_be_loop-ge m k (out * 256 + b) bs e room bytes.1 in
    rw (read_step m k out b bs e, mod-eq_of_lt lt) (le_trans mono ge, omega arith)

-- A size of 8 bytes whose first two are `len` is beyond any buffer.
read_size :
    (len : ℕ) (bs : List ℕ) (e : UnpackErrorType)
    → len < 2 ^ 16
    → All (λ b. b < 256) bs
    → (len * 2 ^ 48 ≤ (read_be_unsigned 8 (at (be_bytes 2 len ++ bs) e)).0)
      × (length (read_be_unsigned 8 (at (be_bytes 2 len ++ bs) e)).1.rest ≤ length bs)
unfolding read_be_unsigned
read_size len bs e h bytes =
    let two : ((0 + len / 256 % 256) % 2 ^ 64 * 256 + len / 1 % 256) % 2 ^ 64 ≡ len = omega arith in
    rw
      (
        read_step (2 ^ 64) 7 0 (len / 2 ^ 8 % 256) _ e,
        read_step (2 ^ 64) 6 _ (len / 2 ^ 0 % 256) bs e,
        two,
      )
      (read_be_loop-ge (2 ^ 64) 6 len bs e (omega arith) bytes)

-- A size beyond the buffer leaves the value and sets the error.
take_body_short :
    (value : List ℕ) (r : ℕ × Unpacker)
    → length r.1.rest < r.0
    → take_body value r ≡ (value, fail_range r.1)
unfolding take_body
take_body_short value r h = rw (lt→leb_false _ _ h)

module _ (body bs : List ℕ) (e : UnpackErrorType) where
  abbrev sized : ℕ × Unpacker
  sized = read_be_unsigned 8 (at (be_bytes 2 (length body) ++ (body ++ bs)) e)

  sized_short :
      255 ≤ length body
      → length body < 2 ^ 16
      → length bs < 2 ^ 48
      → All (λ b. b < 256) (body ++ bs)
      → length sized.1.rest < sized.0
  sized_short lo hi small bytes =
      omega (arith, read_size (length body) (body ++ bs) e hi bytes, length-append body bs)

-- A text of 256 bytes up to 0x7fff is lost: the packer writes its length in two bytes, the
-- unpacker takes eight, and so it leaves its variable as it was and reports `e_out_range`. (The
-- bytes are below 256, and fewer than 2 ^ 48 follow the text.)
pub unpack_string-pack_string_long :
    (str old bs : List ℕ) (e : UnpackErrorType)
    → 256 ≤ length str
    → length str ≤ 0x7fff
    → length bs < 2 ^ 48
    → All (λ b. b < 256) (str ++ bs)
    → ((unpack_string old (at (pack_string str ++ bs) e)).0 ≡ old)
      × ((unpack_string old (at (pack_string str ++ bs) e)).1.ec ≡ e_out_range)
unfolding unpack_string pack_string
unpack_string-pack_string_long str old bs e lo hi small bytes =
    rw
      (
        lt→leb_false (length str) 31 (omega arith),
        lt→leb_false (length str) 0xff (omega arith),
        le→leb (length str) 0xffff (omega arith),
        safe_incremen-cons,
        take_body_short old (sized str bs e)
            (sized_short str bs e (omega arith) (omega arith) small bytes),
      )
      (refl, refl)

-- The same happens to a vector of 255 bytes up to 0x7fff, which is packed as bin16.
pub unpack_bin-pack_bin_long :
    (str old bs : List ℕ) (e : UnpackErrorType)
    → 255 ≤ length str
    → length str ≤ 0x7fff
    → length bs < 2 ^ 48
    → All (λ b. b < 256) (str ++ bs)
    → ((unpack_bin old (at (pack_bin str ++ bs) e)).0 ≡ old)
      × ((unpack_bin old (at (pack_bin str ++ bs) e)).1.ec ≡ e_out_range)
unfolding unpack_bin pack_bin
unpack_bin-pack_bin_long str old bs e lo hi small bytes =
    rw
      (
        lt→ltb_false (length str) 0xff lo,
        lt→ltb (length str) 0xffff (omega arith),
        safe_incremen-cons,
        take_body_short old (sized str bs e)
            (sized_short str bs e (omega arith) (omega arith) small bytes),
      )
      (refl, refl)
