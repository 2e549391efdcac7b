-- ===== src/Compression/Tests.antt =====
-- The compressing streams at concrete inputs.
use gb_server.Base.{
  length, drop, replicate, ℕ, zero, suc, ◌≡◌, refl, ap, Option, none, some, List, [], ◌∷◌, arith,
}
use gb_server.Compression.{
  blocksize, Codec, BlockOutput, new_output, back_up_output, destroy_output, flush, next_output,
  new_input, read_to_end,
}
use gb_server.Compression.Blocks.{IsCodec}
use gb_server.Compression.RoundTrip.{put_pieces, read_to_end-put_pieces}

abbrev read_cell : List ℕ → Option (ℕ × List ℕ)
read_cell [] = none
read_cell (n ∷ rest) = some (n, rest)

-- A codec that puts a mark before each block and keeps a length in one cell.
abbrev marking : Codec
marking = record {
  compress = λ block. 7 ∷ block;
  uncompress = λ block. some (drop 1 block);
  write_varint = λ n. n ∷ [];
  read_varint = read_cell;
  memory = λ n. replicate blocksize 0;
}

length-replicate : (n a : ℕ) → length (replicate n a) ≡ n
length-replicate zero a = refl
length-replicate (suc n) a = ap suc (length-replicate n a)

marking-IsCodec : IsCodec marking
marking-IsCodec = record {
  uncompress-compress = λ block h. refl;
  compress-bound = λ block h. omega arith;
  read-write = λ n rest h. refl;
  read-end = refl;
  memory-size = λ n. length-replicate blocksize 0;
}

-- A length of more than two blocks ends the reading.
too_long : read_to_end marking 1 (new_input (131073 ∷ [])) ≡ some []
unfolding read_to_end
too_long = refl

-- A block of which all bytes are backed up is still held after Flush.
all_backed_up :
    (flush marking (back_up_output blocksize (next_output marking new_output).1)).backed_up_bytes
    ≡ blocksize
unfolding flush back_up_output next_output
all_backed_up = refl

read_to_end-put_pieces_example :
    (s : BlockOutput) × (put_pieces marking ((1 ∷ 2 ∷ []) ∷ [] ∷ (3 ∷ []) ∷ []) new_output ≡ some s)
    × (read_to_end marking 4 (new_input (destroy_output (flush marking s))) ≡ some (1 ∷ 2 ∷ 3 ∷ []))
read_to_end-put_pieces_example =
    read_to_end-put_pieces marking marking-IsCodec ((1 ∷ 2 ∷ []) ∷ [] ∷ (3 ∷ []) ∷ [])
