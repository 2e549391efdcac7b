-- ===== src/Buffers/Sent.antt =====
-- What `Send` hands to the message stream.
use gb_server.Base.{
  length, length-append, ℕ, ◌+◌, ◌-◌, ◌≡◌, refl, sym, ap, ◌∙◌, Bool, true, some, List, [], ◌++◌,
  append_assoc, arith,
}
use mathlib.Core.Path.{subst}
use gb_server.Buffers.Append.{append-bytes}
use gb_server.Buffers.Cursor.{all_bytes, Inside, IsReading, Inside-zero}
use gb_server.Buffers.Message.{
  counted_header, finish, with_body, with_meta, with_head, send_buffer, swap_out-Filling,
}
use gb_server.Buffers.Read.{ReadBuffer, empty_read_buffer, swap_out}
use gb_server.Buffers.Reserve.{IsBuffer, reserve_loop-Reserved}
use gb_server.Buffers.SetData.{set_data-Written}
use gb_server.Buffers.Splice.{splice_inside, splice_all}
use gb_server.Buffers.Write.{WriteBuffer, empty_buffer, bytes_of, splice, reserve}
use gb_server.Stream.Frames.{Outgoing, send_header, send, FitsHeader}
use gb_server.Stream.Header.{header_bytes, length-header_bytes}

counted_header-send_header :
    (m : Outgoing) (a b : ℕ)
    → a ≡ 24 + length m.meta
    → b ≡ 24 + length m.meta + length m.body
    → counted_header 0 a b ≡ send_header m
unfolding counted_header send_header
counted_header-send_header m a b e f =
    let meta_part : a - 0 - 24 ≡ length m.meta = omega arith in
    let body_part : b - 0 - 24 - (a - 0 - 24) ≡ length m.body = omega arith in
    rw (meta_part, rw meta_part at body_part) refl

-- The header takes the place of the reserved bytes.
splice_header :
    (header pad body : List ℕ)
    → length header ≡ length pad
    → splice 0 header (pad ++ body) ≡ header ++ body
splice_header header pad body e =
    splice_inside 0 header pad body (omega arith) ∙ ap (λ l. l ++ body) (splice_all header pad e)

module _ (unset : ℕ → ℕ) (memory : ℕ → Bool) where
  empty-IsBuffer : IsBuffer empty_buffer
  empty-IsBuffer = record { fits = tt; counts = refl }

  -- Where memory is to be had, the blocks that `Send` hands to the message stream hold the bytes of a
  -- message, whose meta and data have less than 2^31 bytes each, in their order, the header with the
  -- sizes first, however they are spread over the blocks; no block is empty, and the cursor is at the
  -- begin of the first one.
  pub send_buffer-send :
      (m : Outgoing)
      → ((n : ℕ) → memory n ≡ true)
      → FitsHeader m
      → (r : ReadBuffer) × (send_buffer unset memory m ≡ some r)
        × (all_bytes r.rest ≡ send m)
        × IsReading r
        × (r.passed ≡ [])
        × (r.cur_pos ≡ 0)
  unfolding send_buffer with_head with_meta with_body finish reserve send
  send_buffer-send m enough fits =
      let head =
        reserve_loop-Reserved unset memory 25 24 empty_buffer enough (omega arith) empty-IsBuffer in
      let w1 : WriteBuffer = head.after in
      let pad = head.longer.padding in
      let metas = append-bytes unset memory m.meta w1 enough head.longer.ok in
      let w2 : WriteBuffer = metas.0 in
      let bodies = append-bytes unset memory m.body w2 enough metas.3 in
      let w3 : WriteBuffer = bodies.0 in
      let pad_size : length pad ≡ 24 = head.longer.size in
      let bytes2 : bytes_of w2.buf_list ≡ pad ++ m.meta =
        metas.2 ∙ ap (λ l. l ++ m.meta) head.longer.bytes in
      let bytes3 : bytes_of w3.buf_list ≡ pad ++ (m.meta ++ m.body) =
        bodies.2 ∙ ap (λ l. l ++ m.body) bytes2 ∙ append_assoc pad m.meta m.body in
      let size2 : w2.write_bytes ≡ 24 + length m.meta =
        metas.3.counts
        ∙ ap length bytes2
        ∙ length-append pad m.meta
        ∙ ap (λ n. n + length m.meta) pad_size in
      let size3 : w3.write_bytes ≡ 24 + (length m.meta + length m.body) =
        bodies.3.counts
        ∙ ap length bytes3
        ∙ length-append pad (m.meta ++ m.body)
        ∙ ap (λ n. n + length (m.meta ++ m.body)) pad_size
        ∙ ap (λ n. 24 + n) (length-append m.meta m.body) in
      let header = counted_header 0 w2.write_bytes w3.write_bytes in
      let named : header ≡ send_header m =
        counted_header-send_header m w2.write_bytes w3.write_bytes size2 (omega arith) in
      let bytes = header_bytes header in
      let total : length (bytes_of w3.buf_list) ≡ length (pad ++ (m.meta ++ m.body)) =
        ap length bytes3 in
      let sum = length-append pad (m.meta ++ m.body) in
      let width = length-header_bytes header in
      let put = set_data-Written 0 bytes w3.buf_list (omega arith) in
      let out = swap_out-Filling put.blocks empty_read_buffer refl refl tt in
      let r : ReadBuffer = swap_out put.blocks empty_read_buffer in
      (
        r,
        rw (head.result, metas.1, bodies.1, put.result) refl,
        out.bytes
            ∙ put.spliced
            ∙ ap (λ l. splice 0 bytes l) bytes3
            ∙ splice_header bytes pad (m.meta ++ m.body) (omega arith)
            ∙ ap (λ h. header_bytes h ++ (m.meta ++ m.body)) named,
        record {
          filled = out.filled;
          inside = subst (λ i. Inside i r.rest) (sym out.at_begin) (Inside-zero r.rest out.filled);
        },
        out.unread,
        out.at_begin,
      )
