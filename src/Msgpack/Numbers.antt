-- ===== src/Msgpack/Numbers.antt =====
-- Integers under `pack_type` and `unpack_number` (src/msgpack/msgpack.hpp).
use gb_server.Base.{
  le→leb, lt→leb_false, byte_rows, pow_pos, pow_byte, ℤ, pos, negsuc, of_word, ℕ, zero, suc, ◌+◌,
  ◌-◌, ◌*◌, ◌/◌, ◌%◌, ◌^◌, ◌≤◌, ◌<◌, ◌≡◌, ap, ◌∙◌, some, List, [], ◌∷◌, ◌++◌, arith,
}
use native.Mathlib.Nat.{mod-lt, mod-eq_of_lt, mul-add-mod_self_right, div-add-mod'}
use gb_server.Msgpack.Format.{uint8, uint16, uint32, uint64, int8, int16, int32, int64, code}
use gb_server.Msgpack.Pack.{be_bytes}
use gb_server.Msgpack.Unpack.{
  UnpackErrorType, Unpacker, safe_incremen, read_be_loop, read_be_unsigned, read_be_signed, Casts,
  unpack_number,
}

abbrev pub at : List ℕ → UnpackErrorType → Unpacker
at bs e = record { rest = bs; ec = e }

pub mod_split : (n p : ℕ) → 0 < p → n % (256 * p) ≡ n / p % 256 * p + n % p
mod_split n p h =
    ap (λ k. k % (256 * p)) whole
    ∙ mul-add-mod_self_right (n / p / 256) (256 * p) low
    ∙ mod-eq_of_lt small
  where
    low : ℕ
    low = n / p % 256 * p + n % p

    whole : n ≡ n / p / 256 * (256 * p) + low
    whole = omega (arith, div-add-mod' n p, ap (λ (t : ℕ). t * p) (div-add-mod' (n / p) 256))

    small : low < 256 * p
    small = omega (arith, mod-lt n h, byte_rows (n / p % 256) p (omega arith))

low_le : (a p r m : ℕ) → 0 < p → a * p + r < m → a < m
low_le a p r m h k = grind arith

pub safe_incremen-cons :
    (b : ℕ) (bs : List ℕ) (e : UnpackErrorType) → safe_incremen 1 (at (b ∷ bs) e) ≡ at bs e
unfolding safe_incremen
safe_incremen-cons b bs e = ground arith

pub read_step :
    (m k out b : ℕ) (bs : List ℕ) (e : UnpackErrorType)
    → read_be_loop m (suc k) out (at (b ∷ bs) e) ≡ read_be_loop m k ((out * 256 + b) % m) (at bs e)
unfolding read_be_loop
read_step m k out b bs e = rw safe_incremen-cons

read_be_loop-be_bytes :
    (m k out n : ℕ) (bs : List ℕ) (e : UnpackErrorType)
    → out * 2 ^ (8 * k) + n % 2 ^ (8 * k) < m
    → read_be_loop m k out (at (be_bytes k n ++ bs) e)
      ≡ (out * 2 ^ (8 * k) + n % 2 ^ (8 * k), at bs e)
read_be_loop-be_bytes m zero out n bs e h = unfold read_be_loop in ground arith
read_be_loop-be_bytes m (suc k) out n bs e h =
    let b : ℕ = n / 2 ^ (8 * k) % 256 in
    let fold : out * 2 ^ (8 * suc k) + n % 2 ^ (8 * suc k)
        ≡ (out * 256 + b) * 2 ^ (8 * k) + n % 2 ^ (8 * k) =
      rw (pow_byte k, mod_split n (2 ^ (8 * k)) (pow_pos (8 * k))) (omega arith) in
    let low : out * 256 + b < m =
      low_le (out * 256 + b) (2 ^ (8 * k)) _ m (pow_pos (8 * k)) (rw fold at h) in
    read_step m k out b (be_bytes k n ++ bs) e
    ∙ rw (fold, mod-eq_of_lt low) (read_be_loop-be_bytes m k (out * 256 + b) n bs e (rw fold at h))

module _ (k n : ℕ) (bs : List ℕ) (e : UnpackErrorType) (h : n < 2 ^ (8 * k)) where
  pub read_be_loop_word : read_be_loop (2 ^ (8 * k)) k 0 (at (be_bytes k n ++ bs) e) ≡ (n, at bs e)
  read_be_loop_word =
      rw
        (
          read_be_loop-be_bytes (2 ^ (8 * k)) k 0 n bs e (rw (mod-eq_of_lt h) (omega arith)),
          mod-eq_of_lt h,
        )
        (ap (λ t. (t, at bs e)) (omega arith))

  pub read_be_unsigned-be_bytes : read_be_unsigned k (at (be_bytes k n ++ bs) e) ≡ (n, at bs e)
  unfolding read_be_unsigned
  read_be_unsigned-be_bytes = read_be_loop_word

  pub read_be_signed-be_bytes :
      read_be_signed k (at (be_bytes k n ++ bs) e) ≡ (of_word (2 ^ (8 * k)) n, at bs e)
  unfolding read_be_signed
  read_be_signed-be_bytes = rw read_be_loop_word

pub be_bytes_one : (n : ℕ) → n < 256 → be_bytes 1 n ≡ n ∷ []
be_bytes_one n h = ap (λ b. b ∷ []) (omega arith)

-- The bytes `bs` are read as the number `v`, whatever follows them and whatever went before.
abbrev pub Reads : {T : Type 0} → Casts T → List ℕ → ℤ → Type 0
Reads {T} c bytes v =
    (val : T) (bs : List ℕ) (e : UnpackErrorType)
    → unpack_number c val (at (bytes ++ bs) e) ≡ some (c.of_int v, at bs e)

module _ {T : Type 0} (c : Casts T) where
  pub uint64-Reads : (n : ℕ) → n < 2 ^ 64 → Reads c (code uint64 ∷ be_bytes 8 n) (pos n)
  unfolding unpack_number
  uint64-Reads n h val bs e = rw (safe_incremen-cons, read_be_unsigned-be_bytes 8 n bs e h)

  pub int64-Reads : (n : ℕ) → n < 2 ^ 64 → Reads c (code int64 ∷ be_bytes 8 n) (of_word (2 ^ 64) n)
  unfolding unpack_number
  int64-Reads n h val bs e = rw (safe_incremen-cons, read_be_signed-be_bytes 8 n bs e h)

  pub uint32-Reads : (n : ℕ) → n < 2 ^ 32 → Reads c (code uint32 ∷ be_bytes 4 n) (pos n)
  unfolding unpack_number
  uint32-Reads n h val bs e = rw (safe_incremen-cons, read_be_unsigned-be_bytes 4 n bs e h)

  pub int32-Reads : (n : ℕ) → n < 2 ^ 32 → Reads c (code int32 ∷ be_bytes 4 n) (of_word (2 ^ 32) n)
  unfolding unpack_number
  int32-Reads n h val bs e = rw (safe_incremen-cons, read_be_signed-be_bytes 4 n bs e h)

  pub uint16-Reads : (n : ℕ) → n < 2 ^ 16 → Reads c (code uint16 ∷ be_bytes 2 n) (pos n)
  unfolding unpack_number
  uint16-Reads n h val bs e = rw (safe_incremen-cons, read_be_unsigned-be_bytes 2 n bs e h)

  pub int16-Reads : (n : ℕ) → n < 2 ^ 16 → Reads c (code int16 ∷ be_bytes 2 n) (of_word (2 ^ 16) n)
  unfolding unpack_number
  int16-Reads n h val bs e = rw (safe_incremen-cons, read_be_signed-be_bytes 2 n bs e h)

  pub uint8-Reads : (n : ℕ) → n < 2 ^ 8 → Reads c (code uint8 ∷ be_bytes 1 n) (pos n)
  unfolding unpack_number
  uint8-Reads n h val bs e = rw (safe_incremen-cons, read_be_unsigned-be_bytes 1 n bs e h)

  pub int8-Reads : (n : ℕ) → n < 2 ^ 8 → Reads c (code int8 ∷ be_bytes 1 n) (of_word (2 ^ 8) n)
  unfolding unpack_number
  int8-Reads n h val bs e = rw (safe_incremen-cons, read_be_signed-be_bytes 1 n bs e h)

  pub fixint-Reads : (n : ℕ) → n ≤ 0x7f → Reads c (n ∷ []) (pos n)
  unfolding unpack_number
  fixint-Reads n h val bs e = rw (safe_incremen-cons, le→leb n 0x7f h)

  pub negative_fixint-Reads : (n : ℕ) → n < 32 → Reads c ((255 - n) ∷ []) (negsuc n)
  unfolding unpack_number
  negative_fixint-Reads n h val bs e =
      rw
        (
          safe_incremen-cons,
          lt→leb_false (255 - n) 0x7f (omega arith),
          le→leb 0xe0 (255 - n) (omega arith),
        )
        (ground arith)
