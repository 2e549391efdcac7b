-- ===== src/Msgpack/Arrays/RoundTrip.antt =====
-- Short sequences and maps, packed and unpacked.
use gb_server.Base.{
  leb, leb→le, le→leb, length, All, ℤ, ℕ, ◌+◌, ◌%◌, ◌≤◌, ◌≡◌, refl, sym, ◌∙◌, true, some, List, [],
  ◌∷◌, ◌++◌, append_assoc, append-nil, arith,
}
use gb_server.Msgpack.Arrays.{
  pack_counted, pack_each, pack_array, pack_map, unpack_each, unpack_map, push_back, unpack_array,
}
use gb_server.Msgpack.Numbers.{at, safe_incremen-cons}
use gb_server.Msgpack.Unpack.{UnpackErrorType, Reader}

abbrev pub add_all : {A M : Type 0} → (A → M → M) → List A → M → M
add_all add [] container = container
add_all add (a ∷ as') container = add_all add as' (add a container)

short_size :
    (size : ℕ) → leb size 15 ≡ true → ((0x90 + size) % 16 ≡ size) × ((0x80 + size) % 16 ≡ size)
short_size size h = let le = leb→le size 15 h in (omega arith, omega arith)

-- The item is read back, whatever follows it.
abbrev pub ItemReads : {A : Type 0} → (A → List ℕ) → Reader A → A → Type 0
ItemReads pack_item unpack_item a =
    (bs : List ℕ) (e : UnpackErrorType) → unpack_item (at (pack_item a ++ bs) e) ≡ some (a, at bs e)

module _ {A : Type 0} (pack_item : A → List ℕ) (unpack_item : Reader A) where
  each-pack_each :
      {M : Type 0} (add : A → M → M) (xs : List A) (container : M) (bs : List ℕ)
      (e : UnpackErrorType)
      → All (ItemReads pack_item unpack_item) xs
      → unpack_each unpack_item add (length xs) container (at (pack_each pack_item xs ++ bs) e)
        ≡ some (add_all add xs container, at bs e)
  unfolding unpack_each
  each-pack_each add [] container bs e r = refl
  each-pack_each add (a ∷ as') container bs e r =
      rw
        (
          append_assoc (pack_item a) (pack_each pack_item as') bs,
          r.0 (pack_each pack_item as' ++ bs) e,
        )
        (each-pack_each add as' (add a container) bs e r.1)

  add_all-push_back :
      (unpack_key : Reader ℤ) (default : A) (xs array : List A)
      → add_all (push_back unpack_item unpack_key default) xs array ≡ array ++ xs
  unfolding push_back
  add_all-push_back unpack_key default [] array = sym (append-nil array)
  add_all-push_back unpack_key default (a ∷ as') array =
      add_all-push_back unpack_key default as' (array ++ a ∷ []) ∙ append_assoc array (a ∷ []) as'

  unpack_array-pack_array :
      (unpack_key : Reader ℤ) (default : A) (xs array : List A) (bs : List ℕ) (e : UnpackErrorType)
      → length xs ≤ 15
      → All (ItemReads pack_item unpack_item) xs
      → unpack_array unpack_item unpack_key default array (at (pack_array pack_item xs ++ bs) e)
        ≡ some (array ++ xs, at bs e)
  unfolding unpack_array pack_array pack_counted
  unpack_array-pack_array unpack_key default xs array bs e h r =
      let small = le→leb (length xs) 15 h in
      let push = push_back unpack_item unpack_key default in
      rw
        (
          small,
          le→leb 0x90 (0x90 + length xs) (omega arith),
          le→leb (0x90 + length xs) 0x9f (omega arith),
          safe_incremen-cons,
          (short_size (length xs) small).0,
          each-pack_each push xs array bs e r,
          add_all-push_back unpack_key default xs array,
        )
        refl

  unpack_map-pack_map :
      {M : Type 0} (insert : A → M → M) (entries : List A) (m : M) (bs : List ℕ)
      (e : UnpackErrorType)
      → length entries ≤ 15
      → All (ItemReads pack_item unpack_item) entries
      → unpack_map unpack_item insert m (at (pack_map pack_item entries ++ bs) e)
        ≡ some (add_all insert entries m, at bs e)
  unfolding unpack_map pack_map pack_counted
  unpack_map-pack_map insert entries m bs e h r =
      let small = le→leb (length entries) 15 h in
      rw
        (
          small,
          le→leb 0x80 (0x80 + length entries) (omega arith),
          le→leb (0x80 + length entries) 0x8f (omega arith),
          safe_incremen-cons,
          (short_size (length entries) small).1,
          each-pack_each insert entries m bs e r,
        )
        refl

  -- At most 15 items that can be read back, packed as a sequence or as a map and followed by any bytes:
  -- the items of the sequence are put behind those that the sequence to unpack into has already, and
  -- the entries of the map are inserted one after the other into the map to unpack into; the bytes
  -- behind them and the error code stay as they are.
  pub short_containers :
      {M : Type 0} (unpack_key : Reader ℤ) (default : A) (insert : A → M → M) (xs array : List A)
      (m : M) (bs : List ℕ) (e : UnpackErrorType)
      → length xs ≤ 15
      → All (ItemReads pack_item unpack_item) xs
      → (unpack_array unpack_item unpack_key default array (at (pack_array pack_item xs ++ bs) e)
          ≡ some (array ++ xs, at bs e))
        × (unpack_map unpack_item insert m (at (pack_map pack_item xs ++ bs) e)
            ≡ some (add_all insert xs m, at bs e))
  short_containers unpack_key default insert xs array m bs e h r = (
    unpack_array-pack_array unpack_key default xs array bs e h r,
    unpack_map-pack_map insert xs m bs e h r,
  )
