-- ===== src/Msgpack/Lua/Tests.antt =====
-- The values of Lua at concrete inputs.
use gb_server.Base.{pos, negsuc, ◌≡◌, refl, true, false, none, some, List, [], ◌∷◌, ◌++◌, arith}
use gb_server.Msgpack.Blobs.{pack_string}
use gb_server.Msgpack.Lua.Args.{
  pack, unfinished, unpack_loop, unpack, unpack-pack, unpack_loop-unknown,
}
use gb_server.Msgpack.Lua.Plain.{Plain}
use gb_server.Msgpack.Lua.Read.{kind, read_size, read_fields, unpack_table, unpack_stack_proxy}
use gb_server.Msgpack.Lua.RoundTrip.{unpack_stack_proxy-pack_stack_proxy}
use gb_server.Msgpack.Lua.Scalars.{vm}
use gb_server.Msgpack.Lua.Stack.{same_key}
use gb_server.Msgpack.Lua.Values.{
  Machine, LuaValue, lua_nil, boolean, integer, number, text, lua_table, end, field, pack_bool,
  pack_stack_proxy,
}
use gb_server.Msgpack.Pack.{pack_int64}
use gb_server.Msgpack.Unpack.{UnpackErrorType, e_none, e_out_range, safe_incremen}

-- Doubles that are no whole numbers.
abbrev a_machine : Machine
a_machine = record {
  whole = λ d. none;
  is_nan = λ d. false;
  float_to_int = λ d. pos 0;
  double_to_int = λ d. pos 0;
  int_to_double = λ v. [];
  float_to_double = λ d. d;
  round_to_float = λ d. d;
  slots = 20;
}

abbrev a_double : LuaValue
a_double = number (0x3f ∷ 0xf8 ∷ 0 ∷ 0 ∷ 0 ∷ 0 ∷ 0 ∷ 0 ∷ [])

-- { [true] = -7, name = { [300] = "hi" } }
abbrev a_table : LuaValue
a_table = lua_table (
    field (boolean true) (integer (negsuc 6)) (
      field (text (110 ∷ [])) (lua_table (field (integer (pos 300)) (text (104 ∷ 105 ∷ [])) end))
        end))

abbrev some_arguments : List LuaValue
some_arguments = a_table ∷ lua_nil ∷ a_double ∷ []

a_table_packed :
    pack_stack_proxy a_machine a_table
    ≡ 0xe0 ∷ 0 ∷ 0 ∷ 0 ∷ 2 ∷ 0xc3 ∷ 0xf9 ∷ 0xa1 ∷ 110 ∷ 0xe0 ∷ 0 ∷ 0 ∷ 0 ∷ 1 ∷ 0xd1 ∷ 1 ∷ 44 ∷ 0xa2
      ∷ 104 ∷ 105 ∷ []
unfolding pack_stack_proxy pack_bool pack_int64 pack_string
a_table_packed = refl

a_table-Plain : Plain a_machine a_table
unfolding same_key
a_table-Plain = (
  omega arith,
  (
    tt,
    tt,
    (omega arith, ground arith),
    refl,
    ((refl, tt), tt),
    (
      omega arith,
      tt,
      (omega arith, ((omega arith, ground arith), tt, omega arith, refl, tt, tt)),
      refl,
      tt,
      tt,
    ),
  ),
)

unpack_stack_proxy-pack_stack_proxy_example :
    unpack_stack_proxy a_machine 3 (vm (pack_stack_proxy a_machine a_table ++ (1 ∷ [])) e_none [])
    ≡ some (vm (1 ∷ []) e_none (a_table ∷ []))
unpack_stack_proxy-pack_stack_proxy_example =
    unpack_stack_proxy-pack_stack_proxy a_machine a_table 3 (1 ∷ []) e_none [] (omega arith)
      (omega arith) a_table-Plain

unpack-pack_example :
    unpack a_machine 3 4 (pack a_machine some_arguments) (boolean false ∷ [])
    ≡ some (some_arguments, e_none)
unpack-pack_example =
    unpack-pack a_machine 3 4 some_arguments (boolean false ∷ []) (omega arith) (omega arith)
      (a_table-Plain, omega arith, (tt, omega arith, ((refl, refl), omega arith, tt)))

unpack_loop-unknown_example :
    (e : UnpackErrorType) × (unpack_loop a_machine 9 1000 0 (vm (0xc1 ∷ 7 ∷ []) e_none [])
      ≡ unfinished 1000 (vm (0xc1 ∷ 7 ∷ []) e []))
unpack_loop-unknown_example =
    unpack_loop-unknown a_machine 8 1000 0 (7 ∷ []) e_none [] (omega arith)

integer_is_table :
    unpack_stack_proxy a_machine 1 (vm (pack_stack_proxy a_machine (integer (negsuc 31))) e_none [])
    ≡ some (vm [] e_out_range (lua_table end ∷ []))
unfolding pack_stack_proxy pack_int64 unpack_stack_proxy kind unpack_table read_size safe_incremen
    read_fields
integer_is_table = refl
