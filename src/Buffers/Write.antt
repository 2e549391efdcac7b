-- ===== src/Buffers/Write.antt =====
-- `WriteBuffer`. The bytes between `data` and `data + size` of a block are its content; `unset` are
-- bytes that malloc leaves as they are, and `memory n` says whether malloc succeeds when the buffer
-- has `n` blocks. A NET_CHECK only logs where it fails, and is left out.
use gb_server.Base.{
  ltb, ◌==◌, if◌then◌else◌, length, take, drop, ℕ, zero, suc, ◌+◌, ◌-◌, ◌*◌, ◌^◌, Bool, true, false,
  Option, none, some, List, [], ◌∷◌, ◌++◌,
}
use Prim.Native.Nat.{min}

pub record Block : Type 0 where
  pub content : List ℕ
  pub capacity : ℕ

pub record WriteBuffer : Type 0 where
  pub buf_list : List Block
  pub total_block_size : ℕ
  pub total_capacity : ℕ
  pub last_bytes : ℕ
  pub write_bytes : ℕ
  pub base_block_factor : ℕ

abbrev pub empty_buffer : WriteBuffer
empty_buffer = record {
  buf_list = [];
  total_block_size = 0;
  total_capacity = 0;
  last_bytes = 0;
  write_bytes = 0;
  base_block_factor = 4;
}

-- Two ints at the start of a block of 64 << factor bytes are not for data.
abbrev pub block_size : ℕ → ℕ
block_size factor = 64 * 2 ^ factor

abbrev pub bytes_of : List Block → List ℕ
bytes_of [] = []
bytes_of (b ∷ bs) = b.content ++ bytes_of bs

-- Whether there is no last block or the last block is full, and how much room is in it.
unfoldable pub last_full : List Block → Bool
last_full [] = true
last_full (b ∷ []) = length b.content == b.capacity
last_full (b ∷ c ∷ bs) = last_full (c ∷ bs)

unfoldable pub last_room : List Block → ℕ
last_room [] = 0
last_room (b ∷ []) = b.capacity - length b.content
last_room (b ∷ c ∷ bs) = last_room (c ∷ bs)

unfoldable pub shrink_last : ℕ → List Block → List Block
shrink_last count [] = []
shrink_last count (b ∷ []) = record b { content = take (length b.content - count) b.content } ∷ []
shrink_last count (b ∷ c ∷ bs) = b ∷ shrink_last count (c ∷ bs)

-- The memcpy of `d` to the bytes from the position `i` on.
abbrev pub splice : ℕ → List ℕ → List ℕ → List ℕ
splice i d [] = []
splice (suc i) d (y ∷ l) = y ∷ splice i d l
splice zero [] (y ∷ l) = y ∷ l
splice zero (x ∷ d) (y ∷ l) = x ∷ splice zero d l

abbrev cons_block : Block → Option (List Block) → Option (List Block)
cons_block b none = none
cons_block b (some bs) = some (b ∷ bs)

-- The second loop of `SetData`; the end of the list is a failed check.
unfoldable pub set_from : ℕ → List ℕ → List Block → Option (List Block)
set_from offset [] bs = some bs
set_from offset (x ∷ d) [] = none
set_from offset (x ∷ d) (b ∷ bs) =
    let cur_size = length b.content - offset in
    let rest = set_from 0 (drop cur_size (x ∷ d)) bs in
    if ltb (length (x ∷ d)) cur_size
    then some (record b { content = splice offset (x ∷ d) b.content } ∷ bs)
    else cons_block (record b { content = splice offset (take cur_size (x ∷ d)) b.content }) rest

-- `SetData`: the first loop, then the second.
unfoldable pub set_data : ℕ → List ℕ → List Block → Option (List Block)
set_data zero d bs = set_from 0 d bs
set_data (suc i) d [] = none
set_data (suc i) d (b ∷ bs) =
    let rest = set_data (suc i - length b.content) d bs in
    if ltb (suc i) (length b.content) then set_from (suc i) d (b ∷ bs) else cons_block b rest

module _ (unset : ℕ → ℕ) where
  abbrev pub unset_bytes : ℕ → List ℕ
  unset_bytes zero = []
  unset_bytes (suc n) = unset n ∷ unset_bytes n

  unfoldable pub fill_last : List Block → List Block
  fill_last [] = []
  fill_last (b ∷ []) =
      record b { content = b.content ++ unset_bytes (b.capacity - length b.content) } ∷ []
  fill_last (b ∷ c ∷ bs) = b ∷ fill_last (c ∷ bs)

unfoldable pub extend : (ℕ → Bool) → WriteBuffer → Bool × WriteBuffer
extend memory w =
    let factor = min 9 (length w.buf_list + w.base_block_factor) in
    if memory (length w.buf_list)
    then (
      true,
      record w {
        buf_list = w.buf_list ++ record { content = []; capacity = block_size factor - 8 } ∷ [];
        total_block_size = w.total_block_size + block_size factor;
        total_capacity = w.total_capacity + (block_size factor - 8);
      },
    )
    else (false, w)

unfoldable pub back_up : ℕ → WriteBuffer → WriteBuffer
back_up count w = record w {
  buf_list = shrink_last count w.buf_list;
  last_bytes = 0;
  write_bytes = w.write_bytes - count;
}

module _ (unset : ℕ → ℕ) (memory : ℕ → Bool) where
  unfoldable pub use_last : WriteBuffer → Option ℕ × WriteBuffer
  use_last w =
      let size = last_room w.buf_list in
      (
        some size,
        record w {
          buf_list = fill_last unset w.buf_list;
          last_bytes = size;
          write_bytes = w.write_bytes + size;
        },
      )

  unfoldable pub use_extended : Bool × WriteBuffer → Option ℕ × WriteBuffer
  use_extended (true, w) = use_last w
  use_extended (false, w) = (none, record w { last_bytes = 0 })

  -- `Next` returns the size of what it hands out, which lies at the end of the buffer.
  unfoldable pub next : WriteBuffer → Option ℕ × WriteBuffer
  unfolding use_extended
  next w = if last_full w.buf_list then use_extended (extend memory w) else use_last w

  unfoldable pub reserve_next :
      (ℕ → WriteBuffer → Option (Bool × WriteBuffer))
      → ℕ
      → Option ℕ × WriteBuffer
      → Option (Bool × WriteBuffer)
  reserve_next again count (none, w) = some (false, w)
  reserve_next again count (some size, w) =
      if ltb count size then some (true, back_up (size - count) w) else again (count - size) w

  -- The loop of `Reserve`, with fuel; `false` where `Next` has failed.
  unfoldable pub reserve_loop : ℕ → ℕ → WriteBuffer → Option (Bool × WriteBuffer)
  unfolding reserve_next
  reserve_loop zero count w = none
  reserve_loop (suc fuel) count w =
      let more_of = reserve_next (λ rest w'. reserve_loop fuel rest w') count (next w) in
      if count == 0 then some (true, w) else more_of

  abbrev head_of : ℕ → Option (Bool × WriteBuffer) → Option (Option ℕ × WriteBuffer)
  head_of head none = none
  head_of head (some (true, w)) = some (some head, w)
  head_of head (some (false, w)) = some (none, w)

  -- `Reserve`, whose result -1 is `none` in the pair.
  unfoldable pub reserve : ℕ → WriteBuffer → Option (Option ℕ × WriteBuffer)
  reserve count w = head_of w.write_bytes (reserve_loop (suc count) count w)

  put_data : WriteBuffer → Option (List Block) → Option (Bool × WriteBuffer)
  put_data w none = none
  put_data w (some bs) = some (true, record w { buf_list = bs })

  unfoldable pub append_at : List ℕ → Option (Option ℕ × WriteBuffer) → Option (Bool × WriteBuffer)
  unfolding put_data
  append_at d none = none
  append_at d (some (none, w)) = some (false, w)
  append_at d (some (some head, w)) = put_data w (set_data head d w.buf_list)

  -- `Append`, whose size is an int: `d` has less than 2^31 bytes.
  unfoldable pub append : List ℕ → WriteBuffer → Option (Bool × WriteBuffer)
  append d w =
      let put = append_at d (reserve (length d) w) in if length d == 0 then some (true, w) else put
