-- ===== src/Msgpack/Lua/Read.antt =====
-- `unpack_stack_proxy` and `unpack_table`.
use gb_server.Base.{
  ltb, leb, ◌==◌, if◌then◌else◌, length, take, pos, of_word, ℕ, zero, suc, ◌+◌, ◌*◌, ◌%◌, ◌^◌, true,
  false, ◌&&◌, ◌||◌, Option, none, some, List, [], ◌∷◌,
}
use gb_server.Msgpack.Blobs.{unpack_string, unpack_bin}
use gb_server.Msgpack.Format.{
  nil, false_bool, true_bool, bin8, bin32, float32, float64, uint8, uint64, int8, int64, str8,
  str32, array16, array32, map16, map32, table, code, i64, u64, cast,
}
use gb_server.Msgpack.Lua.Stack.{raw_set, raw_set_index}
use gb_server.Msgpack.Lua.Values.{
  Machine, LuaValue, lua_nil, boolean, integer, number, text, lua_table, end,
}
use gb_server.Msgpack.Unpack.{
  Unpacker, fail_range, safe_data, safe_incremen, Casts, int_casts, unpack_number,
}

pub record Vm : Type 0 where
  pub unpacker : Unpacker
  pub stack : List LuaValue

abbrev pub push : LuaValue → Unpacker → List LuaValue → Option Vm
push v u stack = some (record { unpacker = u; stack = v ∷ stack })

-- The cases of `unpack_stack_proxy`, whose labels are consecutive codes, and the ranges of its
-- default. `table` stands in the switch, so that it comes before the negative fixint of its code.
pub data Kind : Type 0 where
  positive_fixint negative_fixint fix_map fix_array fix_str : Kind
  is_nil_byte is_false is_true bins is_float32 is_float64 uints ints strs tables unknown : Kind

unfoldable pub kind : ℕ → Kind
kind byte =
    if leb byte 0x7f
    then positive_fixint
    else if leb byte 0x8f
    then fix_map
    else if leb byte 0x9f
    then fix_array
    else if leb byte 0xbf
    then fix_str
    else if byte == code nil
    then is_nil_byte
    else if byte == code false_bool
    then is_false
    else if byte == code true_bool
    then is_true
    else if leb (code bin8) byte && leb byte (code bin32)
    then bins
    else if byte == code float32
    then is_float32
    else if byte == code float64
    then is_float64
    else if leb (code uint8) byte && leb byte (code uint64)
    then uints
    else if leb (code int8) byte && leb byte (code int64)
    then ints
    else if leb (code str8) byte && leb byte (code str32)
    then strs
    else if leb (code array16) byte && leb byte (code table)
    then tables
    else if leb 0xe0 byte
    then negative_fixint
    else unknown

-- `size += uint32_t(safe_data()) << 8 * (i - 1); safe_incremen();`
unfoldable pub read_size : ℕ → Unpacker → ℕ × Unpacker
unfolding safe_data
read_size zero u = (0, u)
read_size (suc i) u =
    let (byte, u') = safe_data u in
    let (rest, u'') = read_size i (safe_incremen 1 u') in (byte * 2 ^ (8 * i) + rest, u'')

abbrev pub Again : Type 0
Again = Vm → Option Vm

abbrev pub with_stack : Unpacker → Option (List LuaValue) → Option Vm
with_stack u none = none
with_stack u (some stack) = some (record { unpacker = u; stack = stack })

abbrev pub then_read : Option Vm → (Vm → Option Vm) → Option Vm
then_read none k = none
then_read (some s) k = k s

-- The loops over the fields of a map and over the items of an array, whose first index is `i`.
unfoldable pub read_fields : Machine → Again → ℕ → Vm → Option Vm
read_fields m again zero s = some s
read_fields m again (suc n) s = then_read (again s) (λ s1.
    then_read (again s1)
      (λ s2. then_read (with_stack s2.unpacker (raw_set m s2.stack)) (read_fields m again n)))

unfoldable pub read_items : Again → ℕ → ℕ → Vm → Option Vm
read_items again i zero s = some s
read_items again i (suc n) s = then_read (again s) (λ s1.
    then_read (with_stack s1.unpacker (raw_set_index i s1.stack)) (read_items again (i + 1) n))

abbrev pub new_table : Unpacker → List LuaValue → Vm
new_table u stack = record { unpacker = u; stack = lua_table end ∷ stack }

abbrev pub items_of : Again → ℕ × Unpacker → List LuaValue → Option Vm
items_of again (n, u) stack = read_items again 1 n (new_table u stack)

abbrev pub fields_of : Machine → Again → ℕ × Unpacker → List LuaValue → Option Vm
fields_of m again (n, u) stack = read_fields m again n (new_table u stack)

unfoldable pub unpack_table : Machine → Again → Vm → Option Vm
unfolding safe_data
unpack_table m again s =
    let (byte, u) = safe_data s.unpacker in
    let next = safe_incremen 1 u in
    if byte == code array32
    then items_of again (read_size 4 next) s.stack
    else if byte == code array16
    then items_of again (read_size 2 next) s.stack
    else if byte == code map32 || byte == code table
    then fields_of m again (read_size 4 next) s.stack
    else if byte == code map16
    then fields_of m again (read_size 2 next) s.stack
    else if leb 0x90 byte && leb byte 0x9f
    then items_of again (byte % 16, next) s.stack
    else if leb 0x80 byte && leb byte 0x8f
    then fields_of m again (byte % 16, next) s.stack
    else some (record s { unpacker = fail_range u })

abbrev pub float_casts : Machine → Casts (List ℕ)
float_casts m = record {
  of_int = m.int_to_double;
  of_float = m.float_to_double;
  of_double = m.round_to_float;
}

abbrev pub double_casts : Machine → Casts (List ℕ)
double_casts m = record {
  of_int = m.int_to_double;
  of_float = m.float_to_double;
  of_double = λ bytes. bytes;
}

abbrev pub push_with :
    {A : Type 0} → (A → LuaValue) → List LuaValue → Option (A × Unpacker) → Option Vm
push_with f stack none = none
push_with f stack (some (a, u)) = push (f a) u stack

-- The part of the fixstr case behind the size.
unfoldable pub take_fix_str : ℕ → Unpacker → List LuaValue → Option Vm
take_fix_str size u stack =
    if leb size (length u.rest)
    then push (text (take size u.rest)) (safe_incremen size u) stack
    else some (record { unpacker = fail_range u; stack = stack })

unfoldable pub unpack_kind : Machine → Again → Kind → ℕ → Unpacker → List LuaValue → Option Vm
unpack_kind m again positive_fixint byte u stack =
    push (integer (pos byte)) (safe_incremen 1 u) stack
unpack_kind m again negative_fixint byte u stack =
    push (integer (of_word (2 ^ 8) byte)) (safe_incremen 1 u) stack
unpack_kind m again fix_map byte u stack =
    unpack_table m again (record { unpacker = u; stack = stack })
unpack_kind m again fix_array byte u stack =
    unpack_table m again (record { unpacker = u; stack = stack })
unpack_kind m again tables byte u stack =
    unpack_table m again (record { unpacker = u; stack = stack })
unpack_kind m again fix_str byte u stack = take_fix_str (byte % 32) (safe_incremen 1 u) stack
unpack_kind m again is_nil_byte byte u stack = push lua_nil (safe_incremen 1 u) stack
unpack_kind m again is_false byte u stack = push (boolean false) (safe_incremen 1 u) stack
unpack_kind m again is_true byte u stack = push (boolean true) (safe_incremen 1 u) stack
unpack_kind m again bins byte u stack =
    let (value, u') = unpack_bin [] u in push (text value) u' stack
unpack_kind m again strs byte u stack =
    let (value, u') = unpack_string [] u in push (text value) u' stack
unpack_kind m again is_float32 byte u stack =
    push_with number stack (unpack_number (float_casts m) (m.int_to_double (pos 0)) u)
unpack_kind m again is_float64 byte u stack =
    push_with number stack (unpack_number (double_casts m) (m.int_to_double (pos 0)) u)
unpack_kind m again uints byte u stack =
    push_with (λ v. integer (cast i64 v)) stack
      (unpack_number (int_casts m.float_to_int m.double_to_int u64) (pos 0) u)
unpack_kind m again ints byte u stack =
    push_with integer stack (unpack_number (int_casts m.float_to_int m.double_to_int i64) (pos 0) u)
unpack_kind m again unknown byte u stack = some (record { unpacker = fail_range u; stack = stack })

-- The fuel is the depth to which tables may be nested. A call pushes one value, unless it fails; with
-- no slot left for it, what happens is undefined, which is `none`.
unfoldable pub unpack_stack_proxy : Machine → ℕ → Again
unfolding safe_data unpack_kind
unpack_stack_proxy m zero s = none
unpack_stack_proxy m (suc fuel) s =
    let (byte, u) = safe_data s.unpacker in
    let pushed = unpack_kind m (λ t. unpack_stack_proxy m fuel t) (kind byte) byte u s.stack in
    if ltb (length s.stack) m.slots then pushed else none
