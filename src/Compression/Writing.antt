-- ===== src/Compression/Writing.antt =====
-- src/buffer/block_wrappers.cpp: what BlockCompressionOutputStream has written and what it still holds.
use gb_server.Base.{
  ◌==◌, ==_iff, if_intro, length, take, drop, All, length-append, length-take, length-drop,
  take-length-append, ℕ, ◌+◌, ◌-◌, ◌≤◌, ◌≡◌, refl, sym, ap, ◌∙◌, true, false, Option, none, some,
  List, [], ◌∷◌, ◌++◌, append_assoc, append-nil, arith,
}
use mathlib.Core.Path.{subst}
use gb_server.Compression.{blocksize, Codec, BlockOutput, overwrite_at, frame, flush_buffer}
use gb_server.Compression.Blocks.{IsBlock, frames, all_of}

abbrev pub pending : Option (List ℕ) → ℕ → List ℕ
pending none backed = []
pending (some buffer) backed = take (blocksize - backed) buffer

abbrev pub Fits : Option (List ℕ) → ℕ → Type 0
Fits none backed = backed ≡ 0
Fits (some buffer) backed = (length buffer ≡ blocksize) × (backed ≤ blocksize)

module _ (c : Codec) where
  -- The bytes of the caller, in blocks that are framed and one that is being filled.
  pub record Wrote (bytes : List ℕ) (s : BlockOutput) : Type 0 where
    pub blocks : List (List ℕ)
    pub framed : s.sub_stream ≡ frames c blocks
    pub sized : All IsBlock blocks
    pub content : bytes ≡ all_of blocks ++ pending s.input_buffer s.backed_up_bytes
    pub fits : Fits s.input_buffer s.backed_up_bytes

frames-append :
    (c : Codec) (xs : List (List ℕ)) (block : List ℕ)
    → frames c (xs ++ block ∷ []) ≡ frames c xs ++ frame c block
frames-append c [] block = append-nil (frame c block)
frames-append c (x ∷ xs) block =
    ap (λ l. frame c x ++ l) (frames-append c xs block) ∙ sym (append_assoc (frame c x) _ _)

all_of-append :
    (xs : List (List ℕ)) (block : List ℕ) → all_of (xs ++ block ∷ []) ≡ all_of xs ++ block
all_of-append [] block = append-nil block
all_of-append (x ∷ xs) block = ap (λ l. x ++ l) (all_of-append xs block) ∙ sym (append_assoc x _ _)

All-snoc :
    (xs : List (List ℕ)) (block : List ℕ)
    → All IsBlock xs
    → IsBlock block
    → All IsBlock (xs ++ block ∷ [])
All-snoc [] block a b = (b, tt)
All-snoc (x ∷ xs) block a b = (a.0, All-snoc xs block a.1 b)

filled_block :
    (buffer : List ℕ) (backed : ℕ)
    → (length buffer ≡ blocksize) × (backed ≤ blocksize)
    → (blocksize - backed == 0) ≡ false
    → IsBlock (take (blocksize - backed) buffer)
filled_block buffer backed f t = ground (arith, length-take (blocksize - backed) buffer)

empty_block :
    (buffer : List ℕ) (backed : ℕ)
    → (blocksize - backed == 0) ≡ true
    → take (blocksize - backed) buffer ≡ []
empty_block buffer backed t = ap (λ n. take n buffer) ((==_iff (blocksize - backed) 0).0 t)

-- What `Flush` does: all that was held is framed, unless all of the block is backed up.
pub flush_buffer-Wrote :
    (c : Codec) (buffer : Option (List ℕ)) (s : BlockOutput) {bytes : List ℕ}
    → s.input_buffer ≡ buffer
    → Wrote c bytes s
    → Wrote c bytes (flush_buffer c buffer s)
unfolding flush_buffer
flush_buffer-Wrote c none s e w = w
flush_buffer-Wrote c (some buffer) s {bytes} e w =
    let content : bytes ≡ all_of w.blocks ++ take (blocksize - s.backed_up_bytes) buffer =
      subst (λ b. bytes ≡ all_of w.blocks ++ pending b s.backed_up_bytes) e w.content in
    let fits : (length buffer ≡ blocksize) × (s.backed_up_bytes ≤ blocksize) =
      subst (λ b. Fits b s.backed_up_bytes) e w.fits in
    let block = take (blocksize - s.backed_up_bytes) buffer in
    if_intro (Wrote c bytes) (blocksize - s.backed_up_bytes == 0) (λ t. w)
      (λ t. record {
        blocks = w.blocks ++ block ∷ [];
        framed = ap (λ l. l ++ frame c block) w.framed ∙ sym (frames-append c w.blocks block);
        sized = All-snoc w.blocks block w.sized (filled_block buffer s.backed_up_bytes fits t);
        content = content ∙ (sym (all_of-append w.blocks block) ∙ sym (append-nil _));
        fits = refl;
      })

-- After `Flush` no block is held that has bytes.
pub flush_buffer-pending :
    (c : Codec) (buffer : Option (List ℕ)) (s : BlockOutput)
    → s.input_buffer ≡ buffer
    → let t = flush_buffer c buffer s in pending t.input_buffer t.backed_up_bytes ≡ []
unfolding flush_buffer
flush_buffer-pending c none s e = rw e
flush_buffer-pending c (some buffer) s e =
    if_intro (λ (t : BlockOutput). pending t.input_buffer t.backed_up_bytes ≡ [])
      (blocksize - s.backed_up_bytes == 0)
      (λ t. ap (λ b. pending b s.backed_up_bytes) e ∙ empty_block buffer s.backed_up_bytes t)
      (λ t. refl)

-- The bytes that are written and those before them.
overwrite_at-take :
    (skip : ℕ) (part buffer : List ℕ)
    → skip ≤ length buffer
    → take (skip + length part) (overwrite_at skip part buffer) ≡ take skip buffer ++ part
overwrite_at-take skip part buffer h =
    let front = take skip buffer ++ part in
    let measured : length front ≡ skip + length part =
      omega (arith, length-append {0} (take skip buffer) part, length-take skip buffer) in
    ap (take (skip + length part))
      (sym (append_assoc (take skip buffer) part (drop (skip + length part) buffer)))
    ∙ (ap (λ n. take n (front ++ drop (skip + length part) buffer)) (sym measured)
        ∙ take-length-append front (drop (skip + length part) buffer))

overwrite_at-length :
    (skip : ℕ) (part buffer : List ℕ)
    → skip + length part ≤ length buffer
    → length (overwrite_at skip part buffer) ≡ length buffer
overwrite_at-length skip part buffer h = omega (
  arith,
  length-append {0} (take skip buffer) (part ++ drop (skip + length part) buffer),
  length-append {0} part (drop (skip + length part) buffer),
  length-drop (skip + length part) buffer,
  length-take skip buffer,
)

-- The held bytes after `part` is written at `skip` and the rest of the region is backed up.
pub written-pending :
    (skip size backed : ℕ) (part buffer : List ℕ)
    → length buffer ≡ blocksize
    → skip + size ≡ blocksize
    → length part ≤ size
    → backed ≡ size - length part
    → (pending (some (overwrite_at skip part buffer)) backed ≡ take skip buffer ++ part)
      × Fits (some (overwrite_at skip part buffer)) backed
written-pending skip size backed part buffer b r h k = (
  ap (λ n. take n (overwrite_at skip part buffer)) (omega arith)
      ∙ overwrite_at-take skip part buffer (omega arith),
  (overwrite_at-length skip part buffer (omega arith) ∙ b, omega arith),
)
