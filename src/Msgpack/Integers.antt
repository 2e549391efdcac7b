-- ===== src/Msgpack/Integers.antt =====
-- src/msgpack/msgpack.hpp: an integer of any type survives packing and unpacking.
use gb_server.Base.{
  ltb, leb, leb→le, le→leb, Bool-cases, ℤ, pos, negsuc, to_word, of_word, leb_ℤ, to_word-lt, ℕ, ◌-◌,
  ◌^◌, ◌≤◌, ◌<◌, ◌≡◌, ap, ◌∙◌, inl, inr, true, ◌&&◌, some, List, [], ◌∷◌, ◌++◌, arith,
}
use mathlib.Core.Path.{subst}
use native.Mathlib.Nat.{mod-eq_of_lt}
use gb_server.Msgpack.Format.{
  uint8, int8, int16, int32, int64, code, IntType, i8, i16, i32, i64, u8, u16, u32, u64, InRange,
  cast-InRange,
}
use gb_server.Msgpack.Numbers.{
  at, be_bytes_one, Reads, uint64-Reads, int64-Reads, uint32-Reads, int32-Reads, uint16-Reads,
  int16-Reads, uint8-Reads, int8-Reads, fixint-Reads, negative_fixint-Reads,
}
use gb_server.Msgpack.Pack.{
  be_bytes, pack_int8, pack_int16, pack_int32, pack_int64, pack_uint8, pack_uint16, pack_uint32,
  pack_uint64, pack_int,
}
use gb_server.Msgpack.Unpack.{UnpackErrorType, Casts, int_casts, unpack_number}

to_word_neg : (n : ℕ) → n < 2 ^ 7 → to_word 256 (negsuc n) ≡ 255 - n
to_word_neg n h = omega arith

within_i8 : (v : ℤ) → (leb_ℤ v (pos 127) && leb_ℤ (negsuc 127) v) ≡ true → InRange i8 v
within_i8 (pos n) h = ground arith
within_i8 (negsuc n) h = ground arith

within_i16 : (v : ℤ) → (leb_ℤ v (pos 32767) && leb_ℤ (negsuc 32767) v) ≡ true → InRange i16 v
within_i16 (pos n) h = ground arith
within_i16 (negsuc n) h = ground arith

within_i32 :
    (v : ℤ) → (leb_ℤ v (pos 2147483647) && leb_ℤ (negsuc 2147483647) v) ≡ true → InRange i32 v
within_i32 (pos n) h = ground arith
within_i32 (negsuc n) h = ground arith

-- A property of packed integers, from its cases: the forms in which a signed integer is written.
module _ (P : List ℕ → ℤ → Type 0) (fixint : (n : ℕ) → n ≤ 0x7f → P (n ∷ []) (pos n))
    (negative : (n : ℕ) → n < 32 → P ((255 - n) ∷ []) (negsuc n))
    (coded8 : (n : ℕ) → n < 2 ^ 8 → P (code int8 ∷ be_bytes 1 n) (of_word (2 ^ 8) n))
    (coded16 : (n : ℕ) → n < 2 ^ 16 → P (code int16 ∷ be_bytes 2 n) (of_word (2 ^ 16) n))
    (coded32 : (n : ℕ) → n < 2 ^ 32 → P (code int32 ∷ be_bytes 4 n) (of_word (2 ^ 32) n))
    (coded64 : (n : ℕ) → n < 2 ^ 64 → P (code int64 ∷ be_bytes 8 n) (of_word (2 ^ 64) n)) where
  pub pack_int8-cases : (v : ℤ) → InRange i8 v → P (pack_int8 v) v
  unfolding pack_int8
  pack_int8-cases (pos n) h =
      rw
        (
          le→leb n 0x7f (omega arith),
          le→leb 0 n (omega arith),
          mod-eq_of_lt {n = n} {m = 256} (omega arith),
        )
        (fixint n (omega arith))
  pack_int8-cases (negsuc n) h = elim (Bool-cases (leb n 31)) [
    | inl small ↦ rw (small, le→leb 0 n (omega arith), to_word_neg n h) (negative n (ground arith))
    | inr large ↦ rw large (
        subst (λ xs. P (code int8 ∷ xs) (negsuc n)) (be_bytes_one _ (omega arith))
          (subst (P (code int8 ∷ be_bytes 1 (to_word 256 (negsuc n))))
            (cast-InRange i8 (negsuc n) h) (coded8 (to_word 256 (negsuc n)) (omega arith))))
  ]

  pub pack_int16-cases : (v : ℤ) → InRange i16 v → P (pack_int16 v) v
  unfolding pack_int16
  pack_int16-cases v h = elim (Bool-cases (leb_ℤ v (pos 127) && leb_ℤ (negsuc 127) v)) [
    | inl small ↦ rw small (pack_int8-cases v (within_i8 v small))
    | inr large ↦ rw large (
        subst (P (code int16 ∷ be_bytes 2 (to_word (2 ^ 16) v))) (cast-InRange i16 v h)
          (coded16 _ (to_word-lt (2 ^ 16) v (omega arith))))
  ]

  pub pack_int32-cases : (v : ℤ) → InRange i32 v → P (pack_int32 v) v
  unfolding pack_int32
  pack_int32-cases v h = elim (Bool-cases (leb_ℤ v (pos 32767) && leb_ℤ (negsuc 32767) v)) [
    | inl small ↦ rw small (pack_int16-cases v (within_i16 v small))
    | inr large ↦ rw large (
        subst (P (code int32 ∷ be_bytes 4 (to_word (2 ^ 32) v))) (cast-InRange i32 v h)
          (coded32 _ (to_word-lt (2 ^ 32) v (omega arith))))
  ]

  pub pack_int64-cases : (v : ℤ) → InRange i64 v → P (pack_int64 v) v
  unfolding pack_int64
  pack_int64-cases v h =
      elim (Bool-cases (leb_ℤ v (pos 2147483647) && leb_ℤ (negsuc 2147483647) v)) [
        | inl small ↦ rw small (pack_int32-cases v (within_i32 v small))
        | inr large ↦ rw large (
            subst (P (code int64 ∷ be_bytes 8 (to_word (2 ^ 64) v))) (cast-InRange i64 v h)
              (coded64 _ (to_word-lt (2 ^ 64) v (omega arith))))
      ]

module _ {T : Type 0} (c : Casts T) where
  pack_uint8-Reads : (n : ℕ) → n < 2 ^ 8 → Reads c (pack_uint8 n) (pos n)
  unfolding pack_uint8
  pack_uint8-Reads n h = elim (Bool-cases (leb n 0x7f)) [
    | inl small ↦ rw small (fixint-Reads c n (leb→le n 0x7f small))
    | inr large ↦
        rw large
          (subst (λ xs. Reads c (code uint8 ∷ xs) (pos n)) (be_bytes_one n h) (uint8-Reads c n h))
  ]

  pack_uint16-Reads : (n : ℕ) → n < 2 ^ 16 → Reads c (pack_uint16 n) (pos n)
  unfolding pack_uint16
  pack_uint16-Reads n h = elim (Bool-cases (ltb 255 n)) [
    | inl large ↦ rw large (uint16-Reads c n h)
    | inr small ↦
        let lt : n < 2 ^ 8 = ground arith in rw (small, mod-eq_of_lt lt) (pack_uint8-Reads n lt)
  ]

  pack_uint32-Reads : (n : ℕ) → n < 2 ^ 32 → Reads c (pack_uint32 n) (pos n)
  unfolding pack_uint32
  pack_uint32-Reads n h = elim (Bool-cases (ltb 65535 n)) [
    | inl large ↦ rw large (uint32-Reads c n h)
    | inr small ↦
        let lt : n < 2 ^ 16 = ground arith in rw (small, mod-eq_of_lt lt) (pack_uint16-Reads n lt)
  ]

  pack_uint64-Reads : (n : ℕ) → n < 2 ^ 64 → Reads c (pack_uint64 n) (pos n)
  unfolding pack_uint64
  pack_uint64-Reads n h = elim (Bool-cases (ltb 4294967295 n)) [
    | inl large ↦ rw large (uint64-Reads c n h)
    | inr small ↦
        let lt : n < 2 ^ 32 = ground arith in rw (small, mod-eq_of_lt lt) (pack_uint32-Reads n lt)
  ]

  pub pack_int-Reads : (t : IntType) (v : ℤ) → InRange t v → Reads c (pack_int t v) v
  unfolding pack_int
  pack_int-Reads i8 v h =
      pack_int8-cases (Reads c) (fixint-Reads c) (negative_fixint-Reads c) (int8-Reads c)
        (int16-Reads c) (int32-Reads c) (int64-Reads c) v h
  pack_int-Reads i16 v h =
      pack_int16-cases (Reads c) (fixint-Reads c) (negative_fixint-Reads c) (int8-Reads c)
        (int16-Reads c) (int32-Reads c) (int64-Reads c) v h
  pack_int-Reads i32 v h =
      pack_int32-cases (Reads c) (fixint-Reads c) (negative_fixint-Reads c) (int8-Reads c)
        (int16-Reads c) (int32-Reads c) (int64-Reads c) v h
  pack_int-Reads i64 v h =
      pack_int64-cases (Reads c) (fixint-Reads c) (negative_fixint-Reads c) (int8-Reads c)
        (int16-Reads c) (int32-Reads c) (int64-Reads c) v h
  pack_int-Reads u8 (pos n) h = rw (mod-eq_of_lt {n = n} {m = 2 ^ 8} h) (pack_uint8-Reads n h)
  pack_int-Reads u16 (pos n) h = rw (mod-eq_of_lt {n = n} {m = 2 ^ 16} h) (pack_uint16-Reads n h)
  pack_int-Reads u32 (pos n) h = rw (mod-eq_of_lt {n = n} {m = 2 ^ 32} h) (pack_uint32-Reads n h)
  pack_int-Reads u64 (pos n) h = rw (mod-eq_of_lt {n = n} {m = 2 ^ 64} h) (pack_uint64-Reads n h)
  pack_int-Reads _ (negsuc n) h = absurd h

-- An integer of any of the eight types, packed and followed by any bytes, is unpacked into a
-- variable of that type as the same integer; the bytes behind it and the error code stay as they are.
pub unpack_number-pack_int :
    (float_to_int double_to_int : List ℕ → ℤ) (t : IntType) (v old : ℤ) (bs : List ℕ)
    (e : UnpackErrorType)
    → InRange t v
    → unpack_number (int_casts float_to_int double_to_int t) old (at (pack_int t v ++ bs) e)
      ≡ some (v, at bs e)
unpack_number-pack_int f d t v old bs e h =
    pack_int-Reads (int_casts f d t) t v h old bs e
    ∙ ap (λ w. some (w, at bs e)) (cast-InRange t v h)
