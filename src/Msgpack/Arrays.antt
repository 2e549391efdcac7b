-- ===== src/Msgpack/Arrays.antt =====
-- src/msgpack/msgpack.hpp: the sequences and maps of C++, whose items are packed and unpacked by
-- functions of their own type. A map is the list of its entries in the order of its iteration, and
-- `insert` is its `insert_or_assign`.
use gb_server.Base.{
  ltb, leb, ◌==◌, if◌then◌else◌, length, set, take, replicate, ℤ, pos, ℕ, zero, suc, ◌+◌, ◌-◌, ◌%◌,
  ◌&&◌, ◌||◌, Option, none, some, List, [], ◌∷◌, ◌++◌,
}
use gb_server.Msgpack.Format.{array16, array32, map16, map32, table, code}
use gb_server.Msgpack.Pack.{be_bytes}
use gb_server.Msgpack.Unpack.{
  Unpacker, Reader, fail_range, safe_data, safe_incremen, read_be_unsigned,
}
pub mod RoundTrip
mod Tests

-- The count of the items behind the code of a short, a middle or a long container; a longer one is not
-- packed at all.
unfoldable pub pack_counted : ℕ → ℕ → ℕ → ℕ → List ℕ → List ℕ
pack_counted short middle long size items =
    if leb size 15
    then (short + size) ∷ items
    else if leb size 0xffff
    then middle ∷ (be_bytes 2 size ++ items)
    else if leb size 0xffffffff
    then long ∷ (be_bytes 4 size ++ items)
    else []

module _ {A : Type 0} (pack_item : A → List ℕ) where
  abbrev pub pack_each : List A → List ℕ
  pack_each [] = []
  pack_each (a ∷ as') = pack_item a ++ pack_each as'

  unfoldable pub pack_array : List A → List ℕ
  pack_array array =
      pack_counted 0x90 (code array16) (code array32) (length array) (pack_each array)

  -- The same for the entries of a map, where `pack_item` packs the key and then the value.
  unfoldable pub pack_map : List A → List ℕ
  pack_map entries =
      pack_counted 0x80 (code map16) (code map32) (length entries) (pack_each entries)

module _ {A M : Type 0} (unpack_item : Reader A) (add : A → M → M) where
  add_item : (M → Reader M) → M → Option (A × Unpacker) → Option (M × Unpacker)
  add_item again container none = none
  add_item again container (some (a, u)) = again (add a container) u

  -- The loops over the items.
  unfoldable pub unpack_each : ℕ → M → Reader M
  unfolding add_item
  unpack_each zero container u = some (container, u)
  unpack_each (suc n) container u =
      add_item (λ rest u'. unpack_each n rest u') container (unpack_item u)

  -- The size is read into a std::size_t of eight bytes.
  unpack_counted : M → ℕ × Unpacker → Option (M × Unpacker)
  unpack_counted container (size, u) = unpack_each size container u

  unfoldable pub unpack_map : M → Reader M
  unfolding safe_data unpack_counted
  unpack_map container u0 =
      let (byte, u) = safe_data u0 in
      let next = safe_incremen 1 u in
      if leb 0x80 byte && leb byte 0x8f
      then unpack_each (byte % 16) container next
      else if byte == code map32 || byte == code table
      then unpack_counted container (read_be_unsigned 8 next)
      else if byte == code map16
      then unpack_counted container (read_be_unsigned 8 next)
      else some (container, u)

module _ {A : Type 0} (unpack_item : Reader A) (unpack_key : Reader ℤ) (default : A) where
  unfoldable pub push_back : A → List A → List A
  push_back a array = array ++ a ∷ []

  -- `array[key - 1] = value`; outside of the array it is a fault.
  put_at : ℤ → A → List A → Option (List A)
  put_at (pos (suc i)) a array = if ltb i (length array) then some (set array i a) else none
  put_at key a array = none

  put_item : (List A → Reader (List A)) → Unpacker → Option (List A) → Option (List A × Unpacker)
  put_item again u none = none
  put_item again u (some array) = again array u

  with_value :
      (List A → Reader (List A)) → ℤ → List A → Option (A × Unpacker) → Option (List A × Unpacker)
  unfolding put_at put_item
  with_value again key array none = none
  with_value again key array (some (a, u)) = put_item again u (put_at key a array)

  with_key :
      (List A → Reader (List A)) → List A → Option (ℤ × Unpacker) → Option (List A × Unpacker)
  unfolding with_value
  with_key again array none = none
  with_key again array (some (key, u)) = with_value again key array (unpack_item u)

  unfoldable pub unpack_indexed : ℕ → List A → Reader (List A)
  unfolding with_key
  unpack_indexed zero array u = some (array, u)
  unpack_indexed (suc n) array u =
      with_key (λ rest u'. unpack_indexed n rest u') array (unpack_key u)

  resize : ℕ → List A → List A
  resize n array = take n array ++ replicate (n - length array) default

  unpack_resized : List A → ℕ × Unpacker → Option (List A × Unpacker)
  unfolding resize
  unpack_resized array (size, u) =
      unpack_indexed size (if ltb 0 size then resize size array else array) u

  unfoldable pub unpack_array : List A → Reader (List A)
  unfolding safe_data unpack_resized push_back unpack_counted
  unpack_array array u0 =
      let (byte, u) = safe_data u0 in
      let next = safe_incremen 1 u in
      if leb 0x90 byte && leb byte 0x9f
      then unpack_each unpack_item push_back (byte % 16) array next
      else if byte == code array32
      then unpack_counted unpack_item push_back array (read_be_unsigned 8 next)
      else if byte == code array16
      then unpack_counted unpack_item push_back array (read_be_unsigned 8 next)
      else if byte == code table
      then unpack_resized array (read_be_unsigned 8 next)
      else some (array, fail_range u)
