-- ===== src/Buffers/Read.antt =====
-- `ReadBuffer`, and `SwapOut`, which fills it. The list of blocks is cut at `_cur_it`; the blocks
-- before it are in `passed`, the nearest first.
use gb_server.Base.{
  ltb, leb, ◌==◌, if◌then◌else◌, length, drop, ℕ, zero, suc, ◌+◌, ◌-◌, Bool, ◌&&◌, Option, none,
  some, List, [], ◌∷◌, ◌++◌,
}
use gb_server.Buffers.Write.{Block}

pub record BufferHandle : Type 0 where
  pub bytes : List ℕ
  pub block : ℕ

pub record ReadBuffer : Type 0 where
  pub passed : List BufferHandle
  pub rest : List BufferHandle
  pub total_block_size : ℕ
  pub total_bytes : ℕ
  pub cur_pos : ℕ
  pub last_bytes : ℕ
  pub read_bytes : ℕ

abbrev pub empty_read_buffer : ReadBuffer
empty_read_buffer = record {
  passed = [];
  rest = [];
  total_block_size = 0;
  total_bytes = 0;
  cur_pos = 0;
  last_bytes = 0;
  read_bytes = 0;
}

abbrev pub back_onto : List BufferHandle → List BufferHandle → List BufferHandle
back_onto [] rest = rest
back_onto (h ∷ passed) rest = back_onto passed (h ∷ rest)

-- `Append` of a block, which sets `_cur_it` to the begin of the list.
unfoldable pub append_handle : BufferHandle → ReadBuffer → ReadBuffer
append_handle h r = record r {
  passed = [];
  rest = back_onto r.passed r.rest ++ h ∷ [];
  total_block_size = r.total_block_size + h.block;
  total_bytes = r.total_bytes + length h.bytes;
}

-- The loop of `SwapOut`: blocks without bytes are left out.
unfoldable pub swap_out : List Block → ReadBuffer → ReadBuffer
swap_out [] r = r
swap_out (b ∷ bs) r =
    let taken = append_handle (record { bytes = b.content; block = b.capacity + 8 }) r in
    swap_out bs (if ltb 0 (length b.content) then taken else r)

-- `Next` hands out what is left of the block at `_cur_it`.
unfoldable pub next_from : List BufferHandle → ReadBuffer → Option (List ℕ) × ReadBuffer
next_from [] r = (none, record r { last_bytes = 0 })
next_from (h ∷ hs) r =
    let data_left = drop r.cur_pos h.bytes in
    (
      some data_left,
      record r {
        passed = h ∷ r.passed;
        rest = hs;
        cur_pos = 0;
        last_bytes = length data_left;
        read_bytes = r.read_bytes + length data_left;
      },
    )

unfoldable pub next_read : ReadBuffer → Option (List ℕ) × ReadBuffer
next_read r = next_from r.rest r

-- `--_cur_it; _cur_pos = _cur_it->size - count`
unfoldable pub step_back : ℕ → List BufferHandle → ReadBuffer → ReadBuffer
step_back count [] r = r
step_back count (h ∷ hs) r = record r {
  passed = hs;
  rest = h ∷ r.rest;
  cur_pos = length h.bytes - count;
}

-- `BackUp`; a failed check is `none`.
unfoldable pub back_up_read : ℕ → ReadBuffer → Option ReadBuffer
back_up_read count r =
    let moved = if ltb 0 count then step_back count r.passed r else r in
    if ltb 0 r.last_bytes && leb count r.last_bytes
    then some (record moved { last_bytes = 0; read_bytes = r.read_bytes - count })
    else none

abbrev skipped : ℕ → ReadBuffer → Option (Bool × ReadBuffer)
skipped count r = some (count == 0, record r { last_bytes = 0 })

abbrev end_skip : Option ReadBuffer → Option (Bool × ReadBuffer)
end_skip none = none
end_skip (some r) = skipped 0 r

unfoldable pub skip_next :
    (ℕ → ReadBuffer → Option (Bool × ReadBuffer))
    → ℕ
    → Option (List ℕ) × ReadBuffer
    → Option (Bool × ReadBuffer)
skip_next again count (none, r) = skipped count r
skip_next again count (some bytes, r) =
    if ltb count (length bytes)
    then end_skip (back_up_read (length bytes - count) r)
    else again (count - length bytes) r

-- The loop of `Skip`, with fuel.
unfoldable pub skip_loop : ℕ → ℕ → ReadBuffer → Option (Bool × ReadBuffer)
unfolding skip_next
skip_loop zero count r = none
skip_loop (suc fuel) count r =
    let more_of = skip_next (λ rest r'. skip_loop fuel rest r') count (next_read r) in
    if ltb 0 count then more_of else skipped count r

unfoldable pub skip : ℕ → ReadBuffer → Option (Bool × ReadBuffer)
skip count r = skip_loop (suc (length r.rest)) count r
