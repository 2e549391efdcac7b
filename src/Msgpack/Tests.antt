-- ===== src/Msgpack/Tests.antt =====
-- The binary format at concrete inputs.
use gb_server.Base.{replicate, ℤ, pos, negsuc, ℕ, ◌≡◌, refl, some, List, [], ◌∷◌, ◌++◌, arith}
use gb_server.Msgpack.Blobs.{pack_string, pack_bin, unpack_string, unpack_bin}
use gb_server.Msgpack.Blobs.Long.{unpack_bin-pack_bin_long}
use gb_server.Msgpack.Blobs.RoundTrip.{unpack_string-pack_string, unpack_bin-pack_bin}
use gb_server.Msgpack.Format.{i64}
use gb_server.Msgpack.Integers.{unpack_number-pack_int}
use gb_server.Msgpack.Numbers.{at}
use gb_server.Msgpack.Pack.{pack_int}
use gb_server.Msgpack.Unpack.{e_none, e_out_range, int_casts, unpack_number}

abbrev no_float : List ℕ → ℤ
no_float bytes = pos 0

abbrev ones : ℕ → List ℕ
ones n = replicate n 1

minus_bytes : pack_int i64 (negsuc 69999) ≡ 0xd2 ∷ 0xff ∷ 0xfe ∷ 0xee ∷ 0x90 ∷ []
unfolding pack_int
minus_bytes = refl

unpack_number-pack_int_example :
    unpack_number
      (int_casts no_float no_float i64)
      (pos 9)
      (at (pack_int i64 (negsuc 69999) ++ 7 ∷ []) e_none)
    ≡ some (negsuc 69999, at (7 ∷ []) e_none)
unpack_number-pack_int_example =
    unpack_number-pack_int no_float no_float i64 (negsuc 69999) (pos 9) (7 ∷ []) e_none
      (omega arith)

unpack_string-pack_string_example :
    unpack_string [] (at (pack_string (ones 40) ++ 7 ∷ []) e_none) ≡ (ones 40, at (7 ∷ []) e_none)
unpack_string-pack_string_example =
    unpack_string-pack_string (ones 40) [] (7 ∷ []) e_none (omega arith)

unpack_bin-pack_bin_example :
    unpack_bin [] (at (pack_bin (ones 40) ++ 7 ∷ []) e_none) ≡ (ones 40, at (7 ∷ []) e_none)
unpack_bin-pack_bin_example = unpack_bin-pack_bin (ones 40) [] (7 ∷ []) e_none (omega arith)

unpack_bin-pack_bin_long_example :
    ((unpack_bin [] (at (pack_bin (ones 255) ++ []) e_none)).0 ≡ [])
    × ((unpack_bin [] (at (pack_bin (ones 255) ++ []) e_none)).1.ec ≡ e_out_range)
unpack_bin-pack_bin_long_example =
    unpack_bin-pack_bin_long (ones 255) [] [] e_none (omega arith) (omega arith) (omega arith)
      (omega arith)
