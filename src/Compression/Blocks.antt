-- ===== src/Compression/Blocks.antt =====
-- src/buffer/block_wrappers.cpp: the frames of a list of blocks, and how they are read.
use gb_server.Base.{
  lt→ltb_false, length, All, length-append, take-length-append, drop-length-append, ℕ, zero, suc,
  ◌+◌, ◌*◌, ◌≤◌, ◌<◌, ◌≡◌, ap, ◌∙◌, none, some, List, [], ◌∷◌, ◌++◌, append_assoc, arith,
}
use gb_server.Compression.{
  blocksize, Codec, frame, BlockInput, bytes_read, no_more, uncompressed, read_block, next_input,
  read_to_end,
}

-- What the streams rely on: blocks of LZ4 come back, are at most twice as long as a block, and a length
-- comes back with the bytes behind it; no length begins at the end.
pub record IsCodec (c : Codec) : Type 0 where
  pub uncompress-compress :
      (block : List ℕ) → length block ≤ blocksize → c.uncompress (c.compress block) ≡ some block
  pub compress-bound :
      (block : List ℕ) → length block ≤ blocksize → length (c.compress block) ≤ 2 * blocksize
  pub read-write :
      (n : ℕ) (rest : List ℕ)
      → n ≤ 2 * blocksize
      → c.read_varint (c.write_varint n ++ rest) ≡ some (n, rest)
  pub read-end : c.read_varint [] ≡ none
  pub memory-size : (n : ℕ) → length (c.memory n) ≡ blocksize

abbrev pub IsBlock : List ℕ → Type 0
IsBlock block = (0 < length block) × (length block ≤ blocksize)

module _ (c : Codec) where
  abbrev pub frames : List (List ℕ) → List ℕ
  frames [] = []
  frames (block ∷ blocks) = frame c block ++ frames blocks

abbrev pub all_of : List (List ℕ) → List ℕ
all_of [] = []
all_of (block ∷ blocks) = block ++ all_of blocks

-- A reader that has given everything before `src` away.
abbrev pub reader_at : List ℕ → ℕ → List ℕ → BlockInput
reader_at output count src = record {
  output_buffer = output;
  input_backed_up = 0;
  input_byte_count = count;
  source = src;
}

module _ (c : Codec) (laws : IsCodec c) where
  read_block-frame :
      (output block rest : List ℕ) (count : ℕ)
      → length block ≤ blocksize
      → let compressed = c.compress block in
        read_block c
          (some (length compressed, compressed ++ rest))
          (reader_at output count (frame c block ++ rest))
        ≡ (bytes_read block, reader_at block (count + length block) rest)
  unfolding read_block uncompressed
  read_block-frame output block rest count h =
      let compressed = c.compress block in
      rw (
        lt→ltb_false (2 * blocksize) (length compressed) (laws.compress-bound block h),
        lt→ltb_false (length (compressed ++ rest)) (length compressed)
            (omega (arith, length-append {0} compressed rest)),
        take-length-append compressed rest,
        drop-length-append compressed rest,
        laws.uncompress-compress block h,
      )

  next_input-frame :
      (output block rest : List ℕ) (count : ℕ)
      → length block ≤ blocksize
      → next_input c (reader_at output count (frame c block ++ rest))
        ≡ (bytes_read block, reader_at block (count + length block) rest)
  unfolding next_input
  next_input-frame output block rest count h =
      let compressed = c.compress block in
      let read : c.read_varint (frame c block ++ rest)
          ≡ some (length compressed, compressed ++ rest) =
        unfold frame in
        (ap c.read_varint (append_assoc (c.write_varint (length compressed)) compressed rest)
          ∙ laws.read-write (length compressed) (compressed ++ rest)
              (laws.compress-bound block h)) in
      ap (λ r. read_block c r (reader_at output count (frame c block ++ rest))) read
      ∙ read_block-frame output block rest count h

  next_input-end :
      (output : List ℕ) (count : ℕ)
      → next_input c (reader_at output count []) ≡ (no_more, reader_at output count [])
  unfolding next_input read_block
  next_input-end output count = rw laws.read-end

  -- A reader with a round for each block and one more reads the bytes of the blocks.
  pub read_to_end-frames :
      (fuel : ℕ) (blocks : List (List ℕ)) (output : List ℕ) (count : ℕ)
      → All IsBlock blocks
      → length blocks < fuel
      → read_to_end c fuel (reader_at output count (frames c blocks)) ≡ some (all_of blocks)
  unfolding read_to_end
  read_to_end-frames zero blocks output count a f = absurd (omega arith)
  read_to_end-frames (suc fuel) [] output count a f = rw (next_input-end output count)
  read_to_end-frames (suc fuel) (block ∷ blocks) output count a f =
      rw (next_input-frame output block (frames c blocks) count a.0.1)
        (rw (read_to_end-frames fuel blocks block (count + length block) a.1 (omega arith)))
