-- ===== src/Msgpack/Lua/Scalars.antt =====
-- Values of Lua that are no tables, packed and unpacked.
use gb_server.Base.{
  ltb, leb, lt→ltb, leb→le, le→leb, Bool-cases, length, length-append, take-length-append,
  drop-length-append, ℤ, pos, negsuc, of_word, ℕ, suc, ◌+◌, ◌-◌, ◌*◌, ◌^◌, ◌≤◌, ◌<◌, ◌≡◌, refl, ap,
  ◌≢◌, inl, inr, Bool, true, false, none, some, List, [], ◌∷◌, ◌++◌, arith,
}
use mathlib.Core.Path.{subst}
use gb_server.Msgpack.Blobs.{pack_string, unpack_string}
use gb_server.Msgpack.Blobs.RoundTrip.{fix_size, unpack_string-pack_string}
use gb_server.Msgpack.Format.{
  Format, nil, float64, int8, int16, int32, int64, str8, code, i64, InRange, cast-InRange,
}
use gb_server.Msgpack.Integers.{pack_int64-cases}
use gb_server.Msgpack.Lua.Read.{
  Vm, negative_fixint, fix_str, ints, kind, double_casts, take_fix_str, unpack_stack_proxy,
}
use gb_server.Msgpack.Lua.Values.{
  Machine, LuaValue, lua_nil, boolean, integer, number, text, pack_bool, pack_whole, pack_double,
}
use gb_server.Msgpack.Numbers.{
  at, safe_incremen-cons, Reads, int64-Reads, int32-Reads, int16-Reads, int8-Reads,
}
use gb_server.Msgpack.Pack.{be_bytes, pack_int64}
use gb_server.Msgpack.Unpack.{
  UnpackErrorType, ◌>>=◌, safe_incremen, Casts, int_casts, copy_raw, unpack_number,
}

abbrev pub vm : List ℕ → UnpackErrorType → List LuaValue → Vm
vm bs e stack = record { unpacker = at bs e; stack = stack }

-- The bytes are read as the value, whatever follows them and whatever is on the stack, where it has
-- two slots left for each level of `room`.
abbrev pub Pushes : Machine → ℕ → ℕ → List ℕ → LuaValue → Type 0
Pushes m fuel room bytes v =
    (bs : List ℕ) (e : UnpackErrorType) (stack : List LuaValue)
    → length stack + 2 * room ≤ m.slots
    → unpack_stack_proxy m fuel (vm (bytes ++ bs) e stack) ≡ some (vm bs e (v ∷ stack))

kind_negative : (n : ℕ) → n < 32 → n ≢ 31 → kind (255 - n) ≡ negative_fixint
unfolding kind
kind_negative n h ne = ground arith

of_word_negative : (n : ℕ) → n < 32 → of_word (2 ^ 8) (255 - n) ≡ negsuc n
of_word_negative n h = ground arith

of_word-InRange8 : (n : ℕ) → n < 2 ^ 8 → InRange i64 (of_word (2 ^ 8) n)
of_word-InRange8 n h = elim (Bool-cases (ltb n 128)) [
  | inl small ↦ rw small (ground arith)
  | inr large ↦ rw large (ground arith)
]

of_word-InRange16 : (n : ℕ) → n < 2 ^ 16 → InRange i64 (of_word (2 ^ 16) n)
of_word-InRange16 n h = elim (Bool-cases (ltb n 32768)) [
  | inl small ↦ rw small (ground arith)
  | inr large ↦ rw large (ground arith)
]

of_word-InRange32 : (n : ℕ) → n < 2 ^ 32 → InRange i64 (of_word (2 ^ 32) n)
of_word-InRange32 n h = elim (Bool-cases (ltb n 2147483648)) [
  | inl small ↦ rw small (ground arith)
  | inr large ↦ rw large (ground arith)
]

of_word-InRange64 : (n : ℕ) → n < 2 ^ 64 → InRange i64 (of_word (2 ^ 64) n)
of_word-InRange64 n h = elim (Bool-cases (ltb n 9223372036854775808)) [
  | inl small ↦ rw small (ground arith)
  | inr large ↦ rw large (ground arith)
]

skip_body :
    (body bs : List ℕ) (e : UnpackErrorType)
    → safe_incremen (length body) (at (body ++ bs) e) ≡ at bs e
unfolding safe_incremen
skip_body body bs e =
    rw
      (
        le→leb (length body) (length (body ++ bs)) (omega (arith, length-append body bs)),
        drop-length-append body bs,
      )
      refl

take_fix_str-append :
    (s bs : List ℕ) (e : UnpackErrorType) (stack : List LuaValue)
    → take_fix_str (length s) (at (s ++ bs) e) stack ≡ some (vm bs e (text s ∷ stack))
unfolding take_fix_str
take_fix_str-append s bs e stack =
    rw
      (
        le→leb (length s) (length (s ++ bs)) (omega (arith, length-append s bs)),
        take-length-append s bs,
        skip_body s bs e,
      )
      refl

copy_raw-append :
    (d bs : List ℕ) (e : UnpackErrorType)
    → copy_raw (length d) (at (d ++ bs) e) ≡ some (d, at (d ++ bs) e)
unfolding copy_raw
copy_raw-append d bs e =
    rw
      (
        le→leb (length d) (length (d ++ bs)) (omega (arith, length-append d bs)),
        take-length-append d bs,
      )
      refl

unpack_number-double :
    (m : Machine) (d old bs : List ℕ) (e : UnpackErrorType)
    → length d ≡ 8
    → unpack_number (double_casts m) old (at (code float64 ∷ (d ++ bs)) e) ≡ some (d, at bs e)
unfolding unpack_number
unpack_number-double m d old bs e h =
    let raw : copy_raw 8 (at (d ++ bs) e) ≡ some (d, at (d ++ bs) e) =
      subst (λ k. copy_raw k (at (d ++ bs) e) ≡ some (d, at (d ++ bs) e)) h
        (copy_raw-append d bs e) in
    let skip : safe_incremen 8 (at (d ++ bs) e) ≡ at bs e =
      subst (λ k. safe_incremen k (at (d ++ bs) e) ≡ at bs e) h (skip_body d bs e) in
    rw (safe_incremen-cons, ◌>>=◌, raw, skip) refl

pub pack_string_short :
    (s : List ℕ) → leb (length s) 31 ≡ true → pack_string s ≡ (0xa0 + length s) ∷ s
unfolding pack_string
pack_string_short s h = rw h refl

pub pack_string_str8 :
    (s : List ℕ)
    → leb (length s) 31 ≡ false
    → length s ≤ 255
    → pack_string s ≡ code str8 ∷ length s ∷ s
unfolding pack_string
pack_string_str8 s h k = rw (h, le→leb (length s) 255 k) refl

kind_fix_str : (n : ℕ) → leb n 31 ≡ true → kind (0xa0 + n) ≡ fix_str
unfolding kind
kind_fix_str n h = ground arith

pub slot_left :
    (stack : List LuaValue) (room slots : ℕ)
    → length stack + 2 * suc room ≤ slots
    → ltb (length stack) slots ≡ true
slot_left stack room slots h = lt→ltb (length stack) slots (omega arith)

module _ (m : Machine) (fuel room : ℕ) where
  fixint-Pushes : (n : ℕ) → n ≤ 0x7f → Pushes m (suc fuel) (suc room) (n ∷ []) (integer (pos n))
  unfolding unpack_stack_proxy kind
  fixint-Pushes n h bs e stack r =
      rw (slot_left stack room m.slots r, le→leb n 0x7f h, safe_incremen-cons) refl

  negative-Pushes :
      (n : ℕ)
      → n < 32
      → n ≢ 31
      → Pushes m (suc fuel) (suc room) ((255 - n) ∷ []) (integer (negsuc n))
  unfolding unpack_stack_proxy
  negative-Pushes n h ne bs e stack r =
      rw
        (
          slot_left stack room m.slots r,
          kind_negative n h ne,
          safe_incremen-cons,
          of_word_negative n h,
        )
        refl

  -- A signed integer behind its code.
  coded-Pushes :
      (f : Format) (body : List ℕ) (v : ℤ)
      → kind (code f) ≡ ints
      → Reads (int_casts m.float_to_int m.double_to_int i64) (code f ∷ body) v
      → InRange i64 v
      → Pushes m (suc fuel) (suc room) (code f ∷ body) (integer v)
  unfolding unpack_stack_proxy
  coded-Pushes f body v k reads h bs e stack r =
      rw (slot_left stack room m.slots r, k, reads (pos 0) bs e, cast-InRange i64 v h) refl

  abbrev Int64 : List ℕ → ℤ → Type 0
  Int64 bytes v = v ≢ negsuc 31 → Pushes m (suc fuel) (suc room) bytes (integer v)

  abbrev casts64 : Casts ℤ
  casts64 = int_casts m.float_to_int m.double_to_int i64

  pub integer-Pushes :
      (v : ℤ)
      → InRange i64 v
      → v ≢ negsuc 31
      → Pushes m (suc fuel) (suc room) (pack_int64 v) (integer v)
  unfolding kind
  integer-Pushes v h =
      pack_int64-cases Int64 (λ n k _. fixint-Pushes n k)
        (λ n k ne. negative-Pushes n k (λ e. ne (ap negsuc e)))
        (λ n k _.
          coded-Pushes int8 (be_bytes 1 n) _ refl (int8-Reads casts64 n k) (of_word-InRange8 n k))
        (λ n k _.
          coded-Pushes int16 (be_bytes 2 n) _ refl (int16-Reads casts64 n k)
            (of_word-InRange16 n k))
        (λ n k _.
          coded-Pushes int32 (be_bytes 4 n) _ refl (int32-Reads casts64 n k)
            (of_word-InRange32 n k))
        (λ n k _.
          coded-Pushes int64 (be_bytes 8 n) _ refl (int64-Reads casts64 n k)
            (of_word-InRange64 n k))
        v h

  pub nil-Pushes : Pushes m (suc fuel) (suc room) (code nil ∷ []) lua_nil
  unfolding unpack_stack_proxy kind
  nil-Pushes bs e stack r = rw (slot_left stack room m.slots r, safe_incremen-cons) refl

  pub boolean-Pushes : (b : Bool) → Pushes m (suc fuel) (suc room) (pack_bool b) (boolean b)
  unfolding pack_bool unpack_stack_proxy kind
  boolean-Pushes true bs e stack r = rw (slot_left stack room m.slots r, safe_incremen-cons) refl
  boolean-Pushes false bs e stack r = rw (slot_left stack room m.slots r, safe_incremen-cons) refl

  pub number-Pushes :
      (d : List ℕ)
      → m.whole d ≡ none
      → length d ≡ 8
      → Pushes m (suc fuel) (suc room) (pack_double m d) (number d)
  unfolding pack_double pack_whole unpack_stack_proxy kind
  number-Pushes d w h bs e stack r =
      rw
        (
          slot_left stack room m.slots r,
          w,
          unpack_number-double m d (m.int_to_double (pos 0)) bs e h,
        )
        refl

  pub text-Pushes :
      (s : List ℕ) → length s ≤ 255 → Pushes m (suc fuel) (suc room) (pack_string s) (text s)
  unfolding unpack_stack_proxy kind
  text-Pushes s h bs e stack r = elim (Bool-cases (leb (length s) 31)) [
    | inl small ↦
        let le : length s ≤ 31 = leb→le (length s) 31 small in
        rw
          (
            slot_left stack room m.slots r,
            pack_string_short s small,
            kind_fix_str (length s) small,
            safe_incremen-cons,
            fix_size (length s) le,
          )
          (take_fix_str-append s bs e stack)
    | inr large ↦
        let shape = pack_string_str8 s large h in
        let read : unpack_string [] (at ((code str8 ∷ length s ∷ s) ++ bs) e) ≡ (s, at bs e) =
          subst (λ l. unpack_string [] (at (l ++ bs) e) ≡ (s, at bs e)) shape
            (unpack_string-pack_string s [] bs e h) in
        rw (slot_left stack room m.slots r, shape, read) refl
  ]
