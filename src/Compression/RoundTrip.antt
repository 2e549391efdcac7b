-- ===== src/Compression/RoundTrip.antt =====
-- src/buffer/block_wrappers.cpp: what is written in blocks and flushed is read back.
use mathlib.Core.Option
use gb_server.Base.{
  ◌==◌, ==_iff, Bool-cases, length, take, drop, All, length-append, take-append-drop, length-take,
  length-drop, ℕ, zero, suc, ◌+◌, ◌-◌, ◌≤◌, ◌<◌, ◌≡◌, refl, sym, ap, ◌∙◌, inl, inr, false, Option,
  none, some, List, [], ◌∷◌, ◌++◌, append_assoc, append-nil, arith,
}
use mathlib.Core.Path.{subst}
use gb_server.Compression.{
  blocksize, Codec, BlockOutput, new_output, back_up_output, write_at, destroy_output, flush_buffer,
  flush, next_output, put_some, put_bytes, new_input, read_to_end,
}
use gb_server.Compression.Blocks.{IsCodec, IsBlock, frames, all_of, read_to_end-frames}
use gb_server.Compression.Writing.{
  pending, Fits, Wrote, flush_buffer-Wrote, flush_buffer-pending, written-pending,
}

take_part : (n : ℕ) (bytes : List ℕ) → length (take n bytes) ≤ n
take_part n bytes = omega (arith, length-take n bytes)

module _ (c : Codec) where
  -- The caller's bytes go on in a block that is held.
  written-Wrote :
      (s : BlockOutput) (buffer : Option (List ℕ)) (backed count : ℕ) (blocks : List (List ℕ))
      (held part : List ℕ) {bytes : List ℕ}
      → s.sub_stream ≡ frames c blocks
      → All IsBlock blocks
      → bytes ≡ all_of blocks ++ held
      → pending buffer backed ≡ held ++ part
      → Fits buffer backed
      → Wrote c
          (bytes ++ part)
          (record s { input_buffer = buffer; backed_up_bytes = backed; byte_count = count })
  written-Wrote s buffer backed count blocks held part f a e p fits = record {
    blocks = blocks;
    framed = f;
    sized = a;
    content =
        ap (λ l. l ++ part) e
        ∙ (append_assoc (all_of blocks) held part ∙ ap (λ l. all_of blocks ++ l) (sym p));
    fits = fits;
  }

  flush-backed : (s : BlockOutput) → s.backed_up_bytes ≡ 0 → (flush c s).backed_up_bytes ≡ 0
  unfolding flush flush_buffer
  flush-backed s z = ground arith

  -- A caller that writes one piece after the other.
  abbrev pub put_pieces : List (List ℕ) → BlockOutput → Option BlockOutput
  put_pieces [] s = some s
  put_pieces (piece ∷ pieces) s =
      Option.bind (put_bytes c (length piece) piece s) (put_pieces pieces)

module _ (c : Codec) (laws : IsCodec c) where
  -- A new block, after the one before is flushed.
  put_new :
      (s : BlockOutput) (part : List ℕ) {bytes : List ℕ} (count : ℕ)
      → s.backed_up_bytes ≡ 0
      → Wrote c bytes s
      → length part ≤ blocksize
      → Wrote c (bytes ++ part) (record (flush c s) {
        input_buffer = write_at 0 part (some (c.memory s.byte_count));
        backed_up_bytes = (flush c s).backed_up_bytes + (blocksize - length part);
        byte_count = count;
      })
  unfolding write_at
  put_new s part {bytes} count z w h =
      let v : Wrote c bytes (flush c s) =
        unfold flush in flush_buffer-Wrote c s.input_buffer s refl w in
      let e : pending (flush c s).input_buffer (flush c s).backed_up_bytes ≡ [] =
        unfold flush in flush_buffer-pending c s.input_buffer s refl in
      let (held, fits) =
        written-pending 0 blocksize ((flush c s).backed_up_bytes + (blocksize - length part)) part
          (c.memory s.byte_count) (laws.memory-size s.byte_count) (omega arith) h
          (omega (arith, flush-backed c s z)) in
      written-Wrote c (flush c s) _ _ count v.blocks [] part v.framed v.sized
        (v.content ∙ ap (λ l. all_of v.blocks ++ l) e) held fits

  put_again :
      (s : BlockOutput) (b : Option (List ℕ)) (part : List ℕ) {bytes : List ℕ} (count : ℕ)
      → s.input_buffer ≡ b
      → (s.backed_up_bytes == 0) ≡ false
      → Wrote c bytes s
      → length part ≤ s.backed_up_bytes
      → Wrote c (bytes ++ part) (record s {
        input_buffer = write_at (blocksize - s.backed_up_bytes) part b;
        backed_up_bytes = 0 + (s.backed_up_bytes - length part);
        byte_count = count;
      })
  unfolding write_at
  put_again s none part {bytes} count e z w h =
      let fits : s.backed_up_bytes ≡ 0 = subst (λ b. Fits b s.backed_up_bytes) e w.fits in
      absurd (ground arith)
  put_again s (some buffer) part {bytes} count e z w h =
      let fits : (length buffer ≡ blocksize) × (s.backed_up_bytes ≤ blocksize) =
        subst (λ b. Fits b s.backed_up_bytes) e w.fits in
      let (held, fits') =
        written-pending (blocksize - s.backed_up_bytes) s.backed_up_bytes
          (0 + (s.backed_up_bytes - length part)) part buffer fits.0 (omega arith) h
          (omega arith) in
      written-Wrote c s _ _ count w.blocks (take (blocksize - s.backed_up_bytes) buffer) part
        w.framed w.sized
        (subst (λ b. bytes ≡ all_of w.blocks ++ pending b s.backed_up_bytes) e w.content) held fits'

  part_fits : (n : ℕ) (new : List ℕ) → length (take n new) ≤ n
  part_fits n new = omega (arith, length-take n new)

  put_some-Wrote :
      (new : List ℕ) (s : BlockOutput) {bytes : List ℕ}
      → Wrote c bytes s
      → (Wrote c (bytes ++ take (next_output c s).0.size new) (put_some c new s))
        × (0 < (next_output c s).0.size)
  unfolding put_some next_output back_up_output
  put_some-Wrote new s w = elim (Bool-cases (s.backed_up_bytes == 0)) [
    | inl z ↦ rw z (
      put_new s (take blocksize new) _ ((==_iff s.backed_up_bytes 0).0 z) w
          (part_fits blocksize new),
      omega arith,
    )
    | inr z ↦ rw z (
      put_again s s.input_buffer (take s.backed_up_bytes new) _ refl z w
          (part_fits s.backed_up_bytes new),
      ground arith,
    )
  ]

  -- A writing that ends, with what has been written then.
  record Puts (bytes : List ℕ) (r : Option BlockOutput) : Type 0 where
    last : BlockOutput
    ended : r ≡ some last
    wrote : Wrote c bytes last

  put_bytes-Puts :
      (fuel : ℕ) (new : List ℕ) (s : BlockOutput) {bytes : List ℕ}
      → length new ≤ fuel
      → Wrote c bytes s
      → Puts (bytes ++ new) (put_bytes c fuel new s)
  unfolding put_bytes
  put_bytes-Puts fuel [] s {bytes} h w = record {
    last = s;
    ended = refl;
    wrote = subst (λ l. Wrote c l s) (sym (append-nil bytes)) w;
  }
  put_bytes-Puts zero (b ∷ bs) s h w = absurd (omega arith)
  put_bytes-Puts (suc fuel) (b ∷ bs) s {bytes} h w =
      let n = (next_output c s).0.size in
      let (w', p) = put_some-Wrote (b ∷ bs) s w in
      let r =
        put_bytes-Puts fuel (drop n (b ∷ bs)) (put_some c (b ∷ bs) s)
          (omega (arith, length-drop n (b ∷ bs))) w' in
      record {
        last = r.last;
        ended = r.ended;
        wrote =
            subst (λ l. Wrote c l r.last)
              (append_assoc bytes (take n (b ∷ bs)) (drop n (b ∷ bs))
                ∙ ap (λ l. bytes ++ l) (take-append-drop n (b ∷ bs)))
              r.wrote;
      }

  put_pieces-Puts :
      (pieces : List (List ℕ)) (s : BlockOutput) {bytes : List ℕ}
      → Wrote c bytes s
      → Puts (bytes ++ all_of pieces) (put_pieces c pieces s)
  unfolding Option.bind
  put_pieces-Puts [] s {bytes} w = record {
    last = s;
    ended = refl;
    wrote = subst (λ l. Wrote c l s) (sym (append-nil bytes)) w;
  }
  put_pieces-Puts (piece ∷ pieces) s {bytes} w =
      let h = put_bytes-Puts (length piece) piece s (omega arith) w in
      let k = put_pieces-Puts pieces h.last h.wrote in
      rw h.ended (record {
        last = k.last;
        ended = k.ended;
        wrote = subst (λ l. Wrote c l k.last) (append_assoc bytes piece (all_of pieces)) k.wrote;
      })

  length-blocks :
      (blocks : List (List ℕ)) → All IsBlock blocks → length blocks ≤ length (all_of blocks)
  length-blocks [] a = omega arith
  length-blocks (block ∷ blocks) a =
      omega (arith, length-append {0} block (all_of blocks), length-blocks blocks a.1, a)

  flushed-read :
      (s : BlockOutput) {bytes : List ℕ}
      → Wrote c bytes s
      → read_to_end c (suc (length bytes)) (new_input (destroy_output (flush c s))) ≡ some bytes
  unfolding destroy_output
  flushed-read s {bytes} w =
      let v : Wrote c bytes (flush c s) =
        unfold flush in flush_buffer-Wrote c s.input_buffer s refl w in
      let p : pending (flush c s).input_buffer (flush c s).backed_up_bytes ≡ [] =
        unfold flush in flush_buffer-pending c s.input_buffer s refl in
      let e : bytes ≡ all_of v.blocks =
        v.content ∙ (ap (λ l. all_of v.blocks ++ l) p ∙ append-nil (all_of v.blocks)) in
      ap (λ l. read_to_end c (suc (length bytes)) (new_input l)) v.framed
      ∙ (read_to_end-frames c laws (suc (length bytes)) v.blocks [] 0 v.sized
            (omega (arith, length-blocks v.blocks v.sized, ap length e))
          ∙ ap (λ l. some l) (sym e))

  -- Where the compression and the coding of lengths can be undone: pieces of any sizes that are
  -- written one after the other are all taken; after Flush and the destructor of the stream, a reader of the stream below gets their bytes in their order, and then false, whatever
  -- new memory holds. The writer has a unit of
  -- fuel for each byte of a piece, the reader one for each byte and one more.
  pub read_to_end-put_pieces :
      (pieces : List (List ℕ))
      → (s : BlockOutput) × (put_pieces c pieces new_output ≡ some s)
        × (read_to_end c (suc (length (all_of pieces))) (new_input (destroy_output (flush c s)))
            ≡ some (all_of pieces))
  read_to_end-put_pieces pieces =
      let start : Wrote c [] new_output = record {
        blocks = [];
        framed = refl;
        sized = tt;
        content = refl;
        fits = refl;
      } in
      let h = put_pieces-Puts pieces new_output start in
      (h.last, h.ended, flushed-read h.last h.wrote)
