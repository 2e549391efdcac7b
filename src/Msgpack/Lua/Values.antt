-- ===== src/Msgpack/Lua/Values.antt =====
-- The values of Lua and what `pack_stack_proxy` writes for them.
use gb_server.Base.{if◌then◌else◌, ℤ, ℕ, suc, Bool, Option, none, some, List, [], ◌∷◌, ◌++◌}
use gb_server.Msgpack.Blobs.{pack_string}
use gb_server.Msgpack.Format.{nil, false_bool, true_bool, float64, table, code}
use gb_server.Msgpack.Pack.{be_bytes, pack_int64}

-- What the machine does with floating point numbers, given by their bytes in memory. `whole` is the
-- int64_t to which a double is equal, if there is one.
pub record Machine : Type 0 where
  pub whole : List ℕ → Option ℤ
  pub is_nan : List ℕ → Bool
  pub float_to_int : List ℕ → ℤ
  pub double_to_int : List ℕ → ℤ
  pub int_to_double : ℤ → List ℕ
  pub float_to_double : List ℕ → List ℕ
  pub round_to_float : List ℕ → List ℕ
  -- How many values the stack may hold: nothing calls lua_checkstack.
  pub slots : ℕ

-- A table is the list of its fields in the order of its iteration. `userdata` holds the bytes that
-- the `pack` of a `MsgPackBase` object writes; functions, threads and the like are `other`.
mutual
  pub data LuaValue : Type 0 where
    lua_nil : LuaValue
    boolean : Bool → LuaValue
    integer : ℤ → LuaValue
    number : List ℕ → LuaValue
    text : List ℕ → LuaValue
    lua_table : LuaFields → LuaValue
    userdata : List ℕ → LuaValue
    other : LuaValue

  pub data LuaFields : Type 0 where
    end : LuaFields
    field : LuaValue → LuaValue → LuaFields → LuaFields

abbrev pub field_count : LuaFields → ℕ
field_count end = 0
field_count (field k v fs) = suc (field_count fs)

unfoldable pub pack_bool : Bool → List ℕ
pack_bool value = if value then code true_bool ∷ [] else code false_bool ∷ []

unfoldable pub pack_whole : Option ℤ → List ℕ → List ℕ
pack_whole (some i) value = pack_int64 i
pack_whole none value = code float64 ∷ value

unfoldable pub pack_double : Machine → List ℕ → List ℕ
pack_double m value = pack_whole (m.whole value) value

-- The count of the fields is written into the four bytes that `pack_table` has reserved.
unfoldable mutual
  pub pack_stack_proxy : Machine → LuaValue → List ℕ
  pack_stack_proxy m lua_nil = code nil ∷ []
  pack_stack_proxy m (boolean b) = pack_bool b
  pack_stack_proxy m (integer v) = pack_int64 v
  pack_stack_proxy m (number d) = pack_double m d
  pack_stack_proxy m (text s) = pack_string s
  pack_stack_proxy m (lua_table fs) = code table ∷ (be_bytes 4 (field_count fs) ++ pack_fields m fs)
  pack_stack_proxy m (userdata bytes) = bytes
  pack_stack_proxy m other = []

  pub pack_fields : Machine → LuaFields → List ℕ
  pack_fields m end = []
  pack_fields m (field k v fs) = pack_stack_proxy m k ++ (pack_stack_proxy m v ++ pack_fields m fs)
