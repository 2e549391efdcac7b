-- ===== src/Buffers/Message.antt =====
-- src/network/io/session.cpp: `Send` as it fills a write buffer and swaps its blocks out into the
-- read buffer that the message stream sends.
use gb_server.Base.{
  ltb, if◌then◌else◌, ltb→lt, ltb_false→le, Bool-cases, length, All, nil_of_length, pos, ℕ, ◌+◌,
  ◌-◌, ◌≡◌, refl, sym, ap, ◌∙◌, inl, inr, Bool, Option, none, some, List, [], ◌∷◌, ◌++◌,
  append_assoc, append-nil, arith,
}
use gb_server.Buffers.Cursor.{all_bytes, Filled}
use gb_server.Buffers.Read.{BufferHandle, ReadBuffer, empty_read_buffer, append_handle, swap_out}
use gb_server.Buffers.Write.{Block, WriteBuffer, empty_buffer, bytes_of, set_data, reserve, append}
use gb_server.Stream.Frames.{Outgoing}
use gb_server.Stream.Header.{header_size, header_magic, MessageHeader, header_bytes}

-- The sizes are read off `ByteCount`, as `Send` does.
unfoldable pub counted_header : ℕ → ℕ → ℕ → MessageHeader
counted_header head after_meta after_data =
    let meta_size = after_meta - head - header_size in
    let data_size = after_data - head - header_size - meta_size in
    record {
      magic_str_value = header_magic;
      meta_size = pos meta_size;
      data_size = pos data_size;
      message_size = pos (meta_size + data_size);
    }

module _ (unset : ℕ → ℕ) (memory : ℕ → Bool) where
  unfoldable pub finish : Option (List Block) → Option ReadBuffer
  finish none = none
  finish (some bs) = some (swap_out bs empty_read_buffer)

  unfoldable pub with_body : ℕ → ℕ → Option (Bool × WriteBuffer) → Option ReadBuffer
  unfolding finish
  with_body head after_meta none = none
  with_body head after_meta (some (ok, w)) =
      finish
        (set_data head (header_bytes (counted_header head after_meta w.write_bytes)) w.buf_list)

  unfoldable pub with_meta : Outgoing → ℕ → Option (Bool × WriteBuffer) → Option ReadBuffer
  unfolding with_body
  with_meta m head none = none
  with_meta m head (some (ok, w)) = with_body head w.write_bytes (append unset memory m.body w)

  unfoldable pub with_head : Outgoing → Option (Option ℕ × WriteBuffer) → Option ReadBuffer
  unfolding with_meta
  with_head m none = none
  with_head m (some (none, w)) = none
  with_head m (some (some head, w)) = with_meta m head (append unset memory m.meta w)

  -- The bytes that `Send` hands to the message stream, as blocks.
  unfoldable pub send_buffer : Outgoing → Option ReadBuffer
  unfolding with_head
  send_buffer m = with_head m (reserve unset memory header_size empty_buffer)

all_bytes-append : (xs ys : List BufferHandle) → all_bytes (xs ++ ys) ≡ all_bytes xs ++ all_bytes ys
all_bytes-append [] ys = refl
all_bytes-append (h ∷ xs) ys =
    ap (λ l. h.bytes ++ l) (all_bytes-append xs ys)
    ∙ sym (append_assoc h.bytes (all_bytes xs) (all_bytes ys))

All-Filled-append :
    (xs : List BufferHandle) (h : BufferHandle)
    → All Filled xs
    → Filled h
    → All Filled (xs ++ h ∷ [])
All-Filled-append [] h f g = (g, tt)
All-Filled-append (x ∷ xs) h f g = (f.0, All-Filled-append xs h f.1 g)

-- The bytes `d` are behind those of `r`, and the cursor is at the begin.
pub record Filling (d : List ℕ) (r r' : ReadBuffer) : Type 0 where
  pub unread : r'.passed ≡ []
  pub at_begin : r'.cur_pos ≡ 0
  pub bytes : all_bytes r'.rest ≡ all_bytes r.rest ++ d
  pub filled : All Filled r'.rest

append_block-Filling :
    (b : Block) (r : ReadBuffer)
    → r.passed ≡ []
    → r.cur_pos ≡ 0
    → All Filled r.rest
    → Filling b.content r (
        if ltb 0 (length b.content)
        then append_handle (record { bytes = b.content; block = b.capacity + 8 }) r
        else r)
append_block-Filling b r e z f = elim (Bool-cases (ltb 0 (length b.content))) [
  | inl long ↦
      let h : BufferHandle = record { bytes = b.content; block = b.capacity + 8 } in
      unfold append_handle in
      rw long (record {
        unread = refl;
        at_begin = z;
        bytes = rw e (
            all_bytes-append r.rest (h ∷ [])
            ∙ ap (λ l. all_bytes r.rest ++ l) (append-nil b.content));
        filled = rw e (All-Filled-append r.rest h f (ltb→lt 0 (length b.content) long));
      })
  | inr empty ↦
      let none_there : b.content ≡ [] =
        nil_of_length b.content (let le = ltb_false→le 0 (length b.content) empty in omega arith) in
      rw empty (record {
        unread = e;
        at_begin = z;
        bytes =
            sym (append-nil (all_bytes r.rest)) ∙ ap (λ l. all_bytes r.rest ++ l) (sym none_there);
        filled = f;
      })
]

-- The bytes of the write buffer end up in the read buffer, in order, and no block of it is empty.
pub swap_out-Filling :
    (bs : List Block) (r : ReadBuffer)
    → r.passed ≡ []
    → r.cur_pos ≡ 0
    → All Filled r.rest
    → Filling (bytes_of bs) r (swap_out bs r)
unfolding swap_out
swap_out-Filling [] r e z f = record {
  unread = e;
  at_begin = z;
  bytes = sym (append-nil (all_bytes r.rest));
  filled = f;
}
swap_out-Filling (b ∷ bs) r e z f =
    let taken = append_handle (record { bytes = b.content; block = b.capacity + 8 }) r in
    let r1 : ReadBuffer = if ltb 0 (length b.content) then taken else r in
    let one = append_block-Filling b r e z f in
    let others = swap_out-Filling bs r1 one.unread one.at_begin one.filled in
    record {
      unread = others.unread;
      at_begin = others.at_begin;
      bytes =
          others.bytes
          ∙ ap (λ l. l ++ bytes_of bs) one.bytes
          ∙ append_assoc (all_bytes r.rest) b.content (bytes_of bs);
      filled = others.filled;
    }
