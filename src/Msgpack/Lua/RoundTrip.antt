-- ===== src/Msgpack/Lua/RoundTrip.antt =====
-- Values of Lua, packed and unpacked, tables field by field.
use gb_server.Base.{
  pow_pos, pow_byte, length, ℕ, zero, suc, ◌+◌, ◌*◌, ◌%◌, ◌^◌, ◌≤◌, ◌<◌, ◌≡◌, refl, ap, false, some,
  List, ◌∷◌, ◌++◌, append_assoc, arith,
}
use native.Mathlib.Nat.{mod-eq_of_lt}
use gb_server.Msgpack.Blobs.{pack_string}
use gb_server.Msgpack.Lua.Plain.{NewKey, Apart, IsKey, Plain, PlainFields, depth, depth_fields}
use gb_server.Msgpack.Lua.Read.{kind, read_size, read_fields, unpack_table, unpack_stack_proxy}
use gb_server.Msgpack.Lua.Scalars.{
  vm, Pushes, slot_left, integer-Pushes, nil-Pushes, boolean-Pushes, number-Pushes, text-Pushes,
}
use gb_server.Msgpack.Lua.Stack.{assign, same_key, is_nil, append_fields, normal_key, raw_set}
use gb_server.Msgpack.Lua.Values.{
  Machine, LuaValue, lua_nil, boolean, integer, number, text, lua_table, userdata, other, LuaFields,
  end, field, field_count, pack_bool, pack_double, pack_stack_proxy, pack_fields,
}
use gb_server.Msgpack.Numbers.{at, mod_split, safe_incremen-cons}
use gb_server.Msgpack.Pack.{be_bytes, pack_int64}
use gb_server.Msgpack.Unpack.{UnpackErrorType}

pub read_size-be_bytes :
    (k n : ℕ) (bs : List ℕ) (e : UnpackErrorType)
    → read_size k (at (be_bytes k n ++ bs) e) ≡ (n % 2 ^ (8 * k), at bs e)
unfolding read_size
read_size-be_bytes zero n bs e = ap (λ t. (t, at bs e)) (omega arith)
read_size-be_bytes (suc k) n bs e =
    rw
      (
        safe_incremen-cons,
        read_size-be_bytes k n bs e,
        pow_byte k,
        mod_split n (2 ^ (8 * k)) (pow_pos (8 * k)),
      )
      refl

append-end : (fs : LuaFields) → append_fields fs end ≡ fs
append-end end = refl
append-end (field k v fs) = ap (field k v) (append-end fs)

append_assoc_fields :
    (fs gs hs : LuaFields)
    → append_fields (append_fields fs gs) hs ≡ append_fields fs (append_fields gs hs)
append_assoc_fields end gs hs = refl
append_assoc_fields (field k v fs) gs hs = ap (field k v) (append_assoc_fields fs gs hs)

-- A new key is put behind the fields that are there.
assign-new :
    (key value : LuaValue) (fs : LuaFields)
    → is_nil value ≡ false
    → NewKey key fs
    → assign key value fs ≡ append_fields fs (field key value end)
unfolding assign
assign-new key value end live new = rw live refl
assign-new key value (field k v fs) live (ne, new) = rw (ne, assign-new key value fs live new) refl

normal_key-Plain :
    (m : Machine) (key : LuaValue) → Plain m key → IsKey m key → normal_key m key ≡ some key
unfolding normal_key
normal_key-Plain m lua_nil p k = elim k [ ]
normal_key-Plain m (boolean b) p k = refl
normal_key-Plain m (integer v) p k = refl
normal_key-Plain m (number d) (w, l) k = rw (k, w) refl
normal_key-Plain m (text s) p k = refl
normal_key-Plain m (lua_table fs) p k = refl
normal_key-Plain m (userdata bytes) p k = refl
normal_key-Plain m other p k = refl

raw_set-new :
    (m : Machine) (key value : LuaValue) (fs : LuaFields) (stack : List LuaValue)
    → Plain m key
    → IsKey m key
    → is_nil value ≡ false
    → NewKey key fs
    → raw_set m (value ∷ key ∷ lua_table fs ∷ stack)
      ≡ some (lua_table (append_fields fs (field key value end)) ∷ stack)
unfolding raw_set
raw_set-new m key value fs stack p k live new =
    rw (normal_key-Plain m key p k, assign-new key value fs live new) refl

NewKey-append :
    (key k v : LuaValue) (fs : LuaFields)
    → NewKey key fs
    → same_key key k ≡ false
    → NewKey key (append_fields fs (field k v end))
NewKey-append key k v end new ne = (ne, tt)
NewKey-append key k v (field k1 v1 fs) (n1, new) ne = (n1, NewKey-append key k v fs new ne)

Apart-append :
    (acc fs : LuaFields) (k v : LuaValue)
    → Apart acc fs
    → Apart (field k v end) fs
    → Apart (append_fields acc (field k v end)) fs
Apart-append acc end k v a b = tt
Apart-append acc (field k1 v1 fs) k v (n, a) ((ne, _), b) =
    (NewKey-append k1 k v acc n ne, Apart-append acc fs k v a b)

Apart-end : (fs : LuaFields) → Apart end fs
Apart-end end = tt
Apart-end (field k v fs) = (tt, Apart-end fs)

with_fuel :
    (P : ℕ → ℕ → Type 0) (n fuel room : ℕ)
    → suc n ≤ fuel
    → suc n ≤ room
    → ((f r : ℕ) → n ≤ f → n ≤ r → P (suc f) (suc r))
    → P fuel room
with_fuel P n zero room h k step = let no_fuel : ⊥ = omega arith in elim no_fuel [ ]
with_fuel P n (suc fuel) zero h k step = let no_room : ⊥ = omega arith in elim no_room [ ]
with_fuel P n (suc fuel) (suc room) h k step = step fuel room (omega arith) (omega arith)

-- The fields read behind those that are there already.
abbrev ReadsFields : Machine → ℕ → ℕ → LuaFields → Type 0
ReadsFields m fuel room fs =
    (acc : LuaFields) (bs : List ℕ) (e : UnpackErrorType) (stack : List LuaValue)
    → Apart acc fs
    → length stack + 2 * suc room ≤ m.slots
    → read_fields m (unpack_stack_proxy m fuel) (field_count fs)
        (vm (pack_fields m fs ++ bs) e (lua_table acc ∷ stack))
      ≡ some (vm bs e (lua_table (append_fields acc fs) ∷ stack))

fields-cons :
    (m : Machine) (fuel room : ℕ) (k v : LuaValue) (fs : LuaFields)
    → Pushes m fuel room (pack_stack_proxy m k) k
    → Pushes m fuel room (pack_stack_proxy m v) v
    → ReadsFields m fuel room fs
    → PlainFields m (field k v fs)
    → ReadsFields m fuel room (field k v fs)
unfolding read_fields pack_fields
fields-cons m fuel room k v fs rk rv rest (pk, ik, pv, live, apart, pfs) acc bs e stack (new, a) r =
    rw
      (
        append_assoc (pack_stack_proxy m k) (pack_stack_proxy m v ++ pack_fields m fs) bs,
        append_assoc (pack_stack_proxy m v) (pack_fields m fs) bs,
        rk (pack_stack_proxy m v ++ (pack_fields m fs ++ bs)) e (lua_table acc ∷ stack)
            (omega arith),
        rv (pack_fields m fs ++ bs) e (k ∷ lua_table acc ∷ stack) (omega arith),
        raw_set-new m k v acc stack pk ik live new,
        rest (append_fields acc (field k v end)) bs e stack (Apart-append acc fs k v a apart) r,
        append_assoc_fields acc (field k v end) fs,
      )
      refl

table-Pushes :
    (m : Machine) (fuel room : ℕ) (fs : LuaFields)
    → field_count fs < 2 ^ 32
    → ReadsFields m fuel room fs
    → Pushes m (suc fuel) (suc room) (pack_stack_proxy m (lua_table fs)) (lua_table fs)
unfolding pack_stack_proxy unpack_stack_proxy kind unpack_table
table-Pushes m fuel room fs small reads bs e stack r =
    rw
      (
        slot_left stack room m.slots r,
        append_assoc (be_bytes 4 (field_count fs)) (pack_fields m fs) bs,
        safe_incremen-cons,
        read_size-be_bytes 4 (field_count fs) (pack_fields m fs ++ bs) e,
        mod-eq_of_lt small,
        reads end bs e stack (Apart-end fs) r,
      )
      refl

mutual
  unfolding pack_stack_proxy read_fields

  value-Pushes :
      (m : Machine) (v : LuaValue) (fuel room : ℕ)
      → depth v ≤ fuel
      → depth v ≤ room
      → Plain m v
      → Pushes m fuel room (pack_stack_proxy m v) v
  value-Pushes m lua_nil fuel room d g p =
      with_fuel (λ f r. Pushes m f r (pack_stack_proxy m lua_nil) lua_nil) 0 fuel room d g
        (λ f r _ _. nil-Pushes m f r)
  value-Pushes m (boolean b) fuel room d g p =
      with_fuel (λ f r. Pushes m f r (pack_bool b) (boolean b)) 0 fuel room d g
        (λ f r _ _. boolean-Pushes m f r b)
  value-Pushes m (integer v) fuel room d g (range, ne) =
      with_fuel (λ f r. Pushes m f r (pack_int64 v) (integer v)) 0 fuel room d g
        (λ f r _ _. integer-Pushes m f r v range ne)
  value-Pushes m (number n) fuel room d g (w, l) =
      with_fuel (λ f r. Pushes m f r (pack_double m n) (number n)) 0 fuel room d g
        (λ f r _ _. number-Pushes m f r n w l)
  value-Pushes m (text s) fuel room d g l =
      with_fuel (λ f r. Pushes m f r (pack_string s) (text s)) 0 fuel room d g
        (λ f r _ _. text-Pushes m f r s l)
  value-Pushes m (lua_table fs) fuel room d g (small, pfs) =
      with_fuel (λ f r. Pushes m f r (pack_stack_proxy m (lua_table fs)) (lua_table fs))
        (depth_fields fs) fuel room d g
        (λ f r h k. table-Pushes m f r fs small (fields-ReadsFields m fs f r h k pfs))
  value-Pushes m (userdata bytes) fuel room d g p = elim p [ ]
  value-Pushes m other fuel room d g p = elim p [ ]

  fields-ReadsFields :
      (m : Machine) (fs : LuaFields) (fuel room : ℕ)
      → depth_fields fs ≤ fuel
      → depth_fields fs ≤ room
      → PlainFields m fs
      → ReadsFields m fuel room fs
  fields-ReadsFields m end fuel room d g p = λ acc bs e stack a r. rw (append-end acc) refl
  fields-ReadsFields m (field k v fs) fuel room d g (pk, ik, pv, live, apart, pfs) =
      fields-cons m fuel room k v fs (value-Pushes m k fuel room (omega arith) (omega arith) pk)
        (value-Pushes m v fuel room (omega arith) (omega arith) pv)
        (fields-ReadsFields m fs fuel room (omega arith) (omega arith) pfs)
        (pk, ik, pv, live, apart, pfs)

-- A value of Lua that keeps its form in msgpack, packed and followed by any bytes, is pushed as the
-- same value by an unpacker that may nest calls as deep as the value does, where the stack has two
-- slots left for each level of the value; the bytes behind it, the error code and the stack below
-- stay as they are. Tables come back with their fields in the order
-- in which they were packed.
pub unpack_stack_proxy-pack_stack_proxy :
    (m : Machine) (v : LuaValue) (fuel : ℕ) (bs : List ℕ) (e : UnpackErrorType)
    (stack : List LuaValue)
    → depth v ≤ fuel
    → length stack + 2 * depth v ≤ m.slots
    → Plain m v
    → unpack_stack_proxy m fuel (vm (pack_stack_proxy m v ++ bs) e stack)
      ≡ some (vm bs e (v ∷ stack))
unpack_stack_proxy-pack_stack_proxy m v fuel bs e stack d r p =
    value-Pushes m v fuel (depth v) d (omega arith) p bs e stack r
