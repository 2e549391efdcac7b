-- ===== src/Buffers/Append.antt =====
-- `Append` and the bytes of a write buffer.
use gb_server.Base.{
  length, length-append, ℕ, suc, ◌≡◌, refl, sym, ap, ◌∙◌, Bool, true, some, List, [], ◌∷◌, ◌++◌,
  append-nil, arith,
}
use gb_server.Buffers.Reserve.{IsBuffer, suc_not_zero, Reserved, reserve_loop-Reserved}
use gb_server.Buffers.SetData.{set_data-Written}
use gb_server.Buffers.Splice.{splice_behind, splice_all}
use gb_server.Buffers.Write.{
  WriteBuffer, bytes_of, splice, reserve_loop, reserve, append_at, append,
}

module _ (unset : ℕ → ℕ) (memory : ℕ → Bool) where
  put-append :
      (x : ℕ) (d : List ℕ) (w : WriteBuffer)
      → IsBuffer w
      → Reserved unset memory
          (length (x ∷ d))
          w
          (reserve_loop unset memory (suc (length (x ∷ d))) (length (x ∷ d)) w)
      → (w' : WriteBuffer) × (append unset memory (x ∷ d) w ≡ some (true, w'))
        × (bytes_of w'.buf_list ≡ bytes_of w.buf_list ++ (x ∷ d))
        × IsBuffer w'
  unfolding append reserve append_at
  put-append x d w r s =
      let v : WriteBuffer = s.after in
      let pad = s.longer.padding in
      let size = s.longer.size in
      let grown : length (bytes_of v.buf_list) ≡ length (bytes_of w.buf_list ++ pad) =
        ap length s.longer.bytes in
      let total = length-append (bytes_of w.buf_list) pad in
      let old = r.counts in
      let new = s.longer.ok.counts in
      let put = set_data-Written w.write_bytes (x ∷ d) v.buf_list (omega arith) in
      let spliced : bytes_of put.blocks ≡ bytes_of w.buf_list ++ (x ∷ d) =
        put.spliced
        ∙ ap (λ l. splice w.write_bytes (x ∷ d) l) s.longer.bytes
        ∙ ap (λ n. splice n (x ∷ d) (bytes_of w.buf_list ++ pad)) (omega arith)
        ∙ splice_behind (bytes_of w.buf_list) 0 (x ∷ d) pad
        ∙ ap (λ l. bytes_of w.buf_list ++ l) (splice_all (x ∷ d) pad (omega arith)) in
      let same : length (bytes_of put.blocks) ≡ length (bytes_of w.buf_list ++ (x ∷ d)) =
        ap length spliced in
      (
        record v { buf_list = put.blocks },
        rw (s.result, put.result, suc_not_zero (length d)) refl,
        spliced,
        record {
          fits = put.fitting s.longer.ok.fits;
          counts = omega (arith, length-append (bytes_of w.buf_list) (x ∷ d));
        },
      )

  -- Where memory is to be had, bytes that are appended to a write buffer stand behind those that
  -- it has, however they are spread over its blocks, and nothing else changes in its bytes.
  pub append-bytes :
      (d : List ℕ) (w : WriteBuffer)
      → ((n : ℕ) → memory n ≡ true)
      → IsBuffer w
      → (w' : WriteBuffer) × (append unset memory d w ≡ some (true, w'))
        × (bytes_of w'.buf_list ≡ bytes_of w.buf_list ++ d)
        × IsBuffer w'
  unfolding append
  append-bytes [] w enough r = (w, refl, sym (append-nil (bytes_of w.buf_list)), r)
  append-bytes (x ∷ d) w enough r = put-append x d w r (
      reserve_loop-Reserved unset memory (suc (length (x ∷ d))) (length (x ∷ d)) w enough
        (omega arith) r)
