-- ===== src/Compression.antt =====
-- src/buffer/block_wrappers.cpp: the streams that compress block by block. The compression of a block
-- (src/buffer/lz4.cpp is a copy of LZ4) and protobuf's coding of a length are parameters, and so is what
-- new memory holds.
pub mod Blocks
pub mod Writing
pub mod RoundTrip
mod Tests
use mathlib.Core.Option
use gb_server.Base.{
  ltb, ◌==◌, if◌then◌else◌, length, take, drop, ℕ, zero, suc, ◌+◌, ◌-◌, ◌*◌, Option, none, some,
  List, [], ◌∷◌, ◌++◌, map,
}

abbrev pub blocksize : ℕ
blocksize = 65536

-- `uncompress` gives `none` for what is no compressed block. `memory n` is what a block holds that is
-- allocated after `n` bytes.
pub record Codec : Type 0 where
  pub compress : List ℕ → List ℕ
  pub uncompress : List ℕ → Option (List ℕ)
  pub write_varint : ℕ → List ℕ
  pub read_varint : List ℕ → Option (ℕ × List ℕ)
  pub memory : ℕ → List ℕ

-- `_input_buffer` is `none` where the pointer is null. `sub_stream` has
-- the bytes that were given to protobuf's CodedOutputStream, which keeps some of them to itself until
-- it is destroyed.
pub record BlockOutput : Type 0 where
  pub input_buffer : Option (List ℕ)
  pub backed_up_bytes : ℕ
  pub byte_count : ℕ
  pub sub_stream : List ℕ

abbrev pub new_output : BlockOutput
new_output = record { input_buffer = none; backed_up_bytes = 0; byte_count = 0; sub_stream = [] }

-- Where the caller may write: the place in the block and the number of bytes.
pub record Region : Type 0 where
  pub skip : ℕ
  pub size : ℕ

-- Within the checks of the code: there is a block, and `count` bytes of it are not backed up yet.
unfoldable pub back_up_output : ℕ → BlockOutput → BlockOutput
back_up_output count s = record s {
  backed_up_bytes = s.backed_up_bytes + count;
  byte_count = s.byte_count - count;
}

-- The caller writes into the region that it was given.
abbrev pub overwrite_at : ℕ → List ℕ → List ℕ → List ℕ
overwrite_at skip bytes buffer = take skip buffer ++ (bytes ++ drop (skip + length bytes) buffer)

unfoldable pub write_at : ℕ → List ℕ → Option (List ℕ) → Option (List ℕ)
write_at skip bytes none = none
write_at skip bytes (some buffer) = some (overwrite_at skip bytes buffer)

-- `~BlockCompressionOutputStream` destroys the CodedOutputStream, which leaves all bytes that it was
-- given in the stream below; the check that no block is left only logs.
unfoldable pub destroy_output : BlockOutput → List ℕ
destroy_output s = s.sub_stream

module _ (c : Codec) where
  -- What `Flush` writes for a block.
  unfoldable pub frame : List ℕ → List ℕ
  frame block =
      let compressed = c.compress block in c.write_varint (length compressed) ++ compressed

  unfoldable pub flush_buffer : Option (List ℕ) → BlockOutput → BlockOutput
  unfolding frame
  flush_buffer none s = s
  flush_buffer (some buffer) s =
      let size = blocksize - s.backed_up_bytes in
      if size == 0 then s else record s {
        sub_stream = s.sub_stream ++ frame (take size buffer);
        backed_up_bytes = 0;
        input_buffer = none;
      }

  unfoldable pub flush : BlockOutput → BlockOutput
  unfolding flush_buffer
  flush s = flush_buffer s.input_buffer s

  unfoldable pub next_output : BlockOutput → Region × BlockOutput
  unfolding flush
  next_output s =
      if s.backed_up_bytes == 0
      then (
        record { skip = 0; size = blocksize },
        record (flush s) {
          input_buffer = some (c.memory s.byte_count);
          byte_count = s.byte_count + blocksize;
        },
      )
      else (
        record { skip = blocksize - s.backed_up_bytes; size = s.backed_up_bytes },
        record s { backed_up_bytes = 0; byte_count = s.byte_count + s.backed_up_bytes },
      )

  -- A caller that has `bytes` to write: one call of Next, the bytes that fit, and BackUp for the others.
  unfoldable pub put_some : List ℕ → BlockOutput → BlockOutput
  unfolding next_output back_up_output write_at
  put_some bytes s =
      let (region, t) = next_output s in
      let part = take region.size bytes in
      back_up_output (region.size - length part)
        (record t { input_buffer = write_at region.skip part t.input_buffer })

  -- All bytes, one region after the other.
  unfoldable pub put_bytes : ℕ → List ℕ → BlockOutput → Option BlockOutput
  unfolding put_some next_output
  put_bytes fuel [] s = some s
  put_bytes zero (b ∷ bs) s = none
  put_bytes (suc fuel) (b ∷ bs) s =
      put_bytes fuel (drop (next_output s).0.size (b ∷ bs)) (put_some (b ∷ bs) s)

-- `output_buffer` has the bytes of the block that was read last.
pub record BlockInput : Type 0 where
  pub output_buffer : List ℕ
  pub input_backed_up : ℕ
  pub input_byte_count : ℕ
  pub source : List ℕ

abbrev pub new_input : List ℕ → BlockInput
new_input bytes = record {
  output_buffer = [];
  input_backed_up = 0;
  input_byte_count = 0;
  source = bytes;
}

-- What Next gives: bytes, false, or true with the negative size of a block that does not decode.
pub data InputResult : Type 0 where
  bytes_read : List ℕ → InputResult
  no_more negative_size : InputResult

unfoldable pub back_up_input : ℕ → BlockInput → BlockInput
back_up_input count s = record s {
  input_backed_up = s.input_backed_up + count;
  input_byte_count = s.input_byte_count - count;
}

abbrev continue : (BlockInput → Option (List ℕ)) → InputResult × BlockInput → Option (List ℕ)
continue rest (bytes_read block, s) = Option.map (λ bytes. block ++ bytes) (rest s)
continue rest (no_more, s) = some []
continue rest (negative_size, s) = none

module _ (c : Codec) where
  unfoldable pub uncompressed : Option (List ℕ) → List ℕ → BlockInput → InputResult × BlockInput
  uncompressed none rest s = (negative_size, record s { source = rest })
  uncompressed (some block) rest s = (
    bytes_read block,
    record s {
      output_buffer = block;
      source = rest;
      input_byte_count = s.input_byte_count + length block;
    },
  )

  -- What a read that fails takes from its source is left open: the source stays.
  unfoldable pub read_block : Option (ℕ × List ℕ) → BlockInput → InputResult × BlockInput
  unfolding uncompressed
  read_block none s = (no_more, s)
  read_block (some (compressed_size, rest)) s =
      if ltb (2 * blocksize) compressed_size
      then (no_more, s)
      else if ltb (length rest) compressed_size
      then (no_more, s)
      else uncompressed (c.uncompress (take compressed_size rest)) (drop compressed_size rest) s

  unfoldable pub next_input : BlockInput → InputResult × BlockInput
  unfolding read_block
  next_input s = if s.input_backed_up == 0 then read_block (c.read_varint s.source) s else (
    bytes_read (drop (length s.output_buffer - s.input_backed_up) s.output_buffer),
    record s { input_backed_up = 0; input_byte_count = s.input_byte_count + s.input_backed_up },
  )

  -- A caller that reads until Next gives false; `none` is a block that does not decode, or the end
  -- of the fuel.
  unfoldable pub read_to_end : ℕ → BlockInput → Option (List ℕ)
  unfolding next_input
  read_to_end zero s = none
  read_to_end (suc fuel) s = continue (read_to_end fuel) (next_input s)
