-- ===== src/Msgpack/Arrays/Tests.antt =====
-- Sequences and maps at concrete inputs: pairs of texts.
use gb_server.Base.{
  length, ℤ, ℕ, ◌≤◌, ◌≡◌, refl, Option, none, some, List, [], ◌∷◌, ◌++◌, append_assoc, arith,
}
use gb_server.Msgpack.Arrays.{pack_array, pack_map, unpack_map, unpack_array}
use gb_server.Msgpack.Arrays.RoundTrip.{add_all, ItemReads, short_containers}
use gb_server.Msgpack.Blobs.{pack_string, unpack_string}
use gb_server.Msgpack.Blobs.RoundTrip.{unpack_string-pack_string}
use gb_server.Msgpack.Numbers.{at}
use gb_server.Msgpack.Unpack.{e_none, Unpacker, Reader}

abbrev Pair : Type 0
Pair = List ℕ × List ℕ

abbrev pack_pair : Pair → List ℕ
pack_pair (k, v) = pack_string k ++ pack_string v

abbrev second_text : List ℕ → List ℕ × Unpacker → Option (Pair × Unpacker)
second_text k (v, u) = some ((k, v), u)

abbrev unpack_second : List ℕ × Unpacker → Option (Pair × Unpacker)
unpack_second (k, u) = second_text k (unpack_string [] u)

abbrev unpack_pair : Reader Pair
unpack_pair u = unpack_second (unpack_string [] u)

pair-ItemReads :
    (k v : List ℕ) → length k ≤ 255 → length v ≤ 255 → ItemReads pack_pair unpack_pair (k, v)
pair-ItemReads k v h g bs e =
    rw
      (
        append_assoc (pack_string k) (pack_string v) bs,
        unpack_string-pack_string k [] (pack_string v ++ bs) e h,
        unpack_string-pack_string v [] bs e g,
      )
      refl

abbrev no_key : Reader ℤ
no_key u = none

abbrev insert_pair : Pair → List Pair → List Pair
insert_pair p m = p ∷ m

abbrev two_pairs : List Pair
two_pairs = (1 ∷ [], 2 ∷ 3 ∷ []) ∷ ([], 4 ∷ []) ∷ []

short_containers_example :
    (unpack_array unpack_pair no_key
        ([], [])
        []
        (at (pack_array pack_pair two_pairs ++ (9 ∷ [])) e_none)
      ≡ some (two_pairs, at (9 ∷ []) e_none))
    × (unpack_map unpack_pair insert_pair [] (at (pack_map pack_pair two_pairs ++ (9 ∷ [])) e_none)
        ≡ some (add_all insert_pair two_pairs [], at (9 ∷ []) e_none))
short_containers_example =
    short_containers pack_pair unpack_pair no_key ([], []) insert_pair two_pairs [] [] (9 ∷ [])
      e_none (omega arith)
      (
        pair-ItemReads (1 ∷ []) (2 ∷ 3 ∷ []) (omega arith) (omega arith),
        (pair-ItemReads [] (4 ∷ []) (omega arith) (omega arith), tt),
      )
