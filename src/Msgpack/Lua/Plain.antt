-- ===== src/Msgpack/Lua/Plain.antt =====
-- The values of Lua that keep their form in msgpack, and how deep they are nested.
use gb_server.Base.{length, negsuc, ℕ, suc, ◌^◌, ◌≤◌, ◌<◌, ◌≡◌, ◌≢◌, false, none}
use gb_server.Msgpack.Format.{i64, InRange}
use gb_server.Msgpack.Lua.Stack.{same_key, is_nil}
use gb_server.Msgpack.Lua.Values.{
  Machine, LuaValue, lua_nil, boolean, integer, number, text, lua_table, userdata, other, LuaFields,
  end, field, field_count,
}
use Prim.Native.Nat.{max}

-- None of the keys equals the key that comes later.
abbrev pub NewKey : LuaValue → LuaFields → Type 0
NewKey key end = Unit {0}
NewKey key (field k v fs) = (same_key key k ≡ false) × NewKey key fs

abbrev pub Apart : LuaFields → LuaFields → Type 0
Apart before end = Unit {0}
Apart before (field k v fs) = NewKey k before × Apart before fs

abbrev pub IsKey : Machine → LuaValue → Type 0
IsKey m lua_nil = ⊥
IsKey m (number d) = m.is_nan d ≡ false
IsKey m _ = Unit {0}

-- The byte of -32 is that of a table; longer texts lose their length; a double with the value of an
-- integer is written as one; a field holds a key that is new and a value that is not nil.
abbrev mutual
  pub Plain : Machine → LuaValue → Type 0
  Plain m lua_nil = Unit {0}
  Plain m (boolean b) = Unit {0}
  Plain m (integer v) = InRange i64 v × (v ≢ negsuc 31)
  Plain m (number d) = (m.whole d ≡ none) × (length d ≡ 8)
  Plain m (text s) = length s ≤ 255
  Plain m (lua_table fs) = (field_count fs < 2 ^ 32) × PlainFields m fs
  Plain m (userdata bytes) = ⊥
  Plain m other = ⊥

  pub PlainFields : Machine → LuaFields → Type 0
  PlainFields m end = Unit {0}
  PlainFields m (field k v fs) =
      Plain m k
      × IsKey m k
      × Plain m v
      × (is_nil v ≡ false)
      × Apart (field k v end) fs
      × PlainFields m fs

abbrev mutual
  pub depth : LuaValue → ℕ
  depth (lua_table fs) = suc (depth_fields fs)
  depth _ = 1

  pub depth_fields : LuaFields → ℕ
  depth_fields end = 0
  depth_fields (field k v fs) = max (depth k) (max (depth v) (depth_fields fs))
