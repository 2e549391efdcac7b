-- ===== src/Msgpack/Lua/Stack.antt =====
-- The Lua stack and its tables, as the calls of the Lua library change them.
use gb_server.Base.{
  ◌==◌, if◌then◌else◌, ℤ, pos, negsuc, ℕ, Bool, true, false, ◌&&◌, Option, none, some, List, [],
  ◌∷◌,
}
use gb_server.Msgpack.Lua.Values.{
  Machine, LuaValue, lua_nil, boolean, integer, number, text, lua_table, LuaFields, end, field,
}

abbrev same_bytes : List ℕ → List ℕ → Bool
same_bytes [] [] = true
same_bytes (a ∷ as') (b ∷ bs) = a == b && same_bytes as' bs
same_bytes _ _ = false

abbrev same_int : ℤ → ℤ → Bool
same_int (pos a) (pos b) = a == b
same_int (negsuc a) (negsuc b) = a == b
same_int _ _ = false

-- Tables are compared by identity, and a table that has just been made is a new one.
unfoldable pub same_key : LuaValue → LuaValue → Bool
same_key (boolean true) (boolean true) = true
same_key (boolean false) (boolean false) = true
same_key (integer a) (integer b) = same_int a b
same_key (number a) (number b) = same_bytes a b
same_key (text a) (text b) = same_bytes a b
same_key _ _ = false

abbrev pub is_nil : LuaValue → Bool
is_nil lua_nil = true
is_nil _ = false

abbrev pub append_fields : LuaFields → LuaFields → LuaFields
append_fields end gs = gs
append_fields (field k v fs) gs = field k v (append_fields fs gs)

-- `t[key] = value`; a nil takes the field away.
unfoldable pub assign : LuaValue → LuaValue → LuaFields → LuaFields
assign key value end = if is_nil value then end else field key value end
assign key value (field k v fs) =
    let rest = assign key value fs in
    if same_key key k then (if is_nil value then fs else field k value fs) else field k v rest

abbrev key_of_whole : Option ℤ → List ℕ → LuaValue
key_of_whole (some i) d = integer i
key_of_whole none d = number d

-- A float with the value of an integer is the integer as a key; nil and a NaN are no keys.
unfoldable pub normal_key : Machine → LuaValue → Option LuaValue
normal_key m lua_nil = none
normal_key m (number d) = if m.is_nan d then none else some (key_of_whole (m.whole d) d)
normal_key m key = some key

set_field : Option LuaValue → LuaValue → LuaFields → List LuaValue → Option (List LuaValue)
set_field none value fs stack = none
set_field (some key) value fs stack = some (lua_table (assign key value fs) ∷ stack)

-- `lua_rawset(-3)`
unfoldable pub raw_set : Machine → List LuaValue → Option (List LuaValue)
unfolding set_field
raw_set m (value ∷ key ∷ lua_table fs ∷ stack) = set_field (normal_key m key) value fs stack
raw_set m _ = none

-- `lua_rawseti(-2, i)`
unfoldable pub raw_set_index : ℕ → List LuaValue → Option (List LuaValue)
raw_set_index i (value ∷ lua_table fs ∷ stack) =
    some (lua_table (assign (integer (pos i)) value fs) ∷ stack)
raw_set_index i _ = none
