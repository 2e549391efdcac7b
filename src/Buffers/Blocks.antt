-- ===== src/Buffers/Blocks.antt =====
-- The last block of a write buffer: it is filled to its end and cut back.
use gb_server.Base.{
  length, take, All, length-append, length-take, ℕ, zero, suc, ◌-◌, ◌≤◌, ◌<◌, ◌≡◌, refl, sym, ap,
  ◌∙◌, false, List, [], ◌∷◌, ◌++◌, append_assoc, append-nil, arith,
}
use gb_server.Buffers.SetData.{Fits}
use gb_server.Buffers.Write.{
  Block, bytes_of, last_full, last_room, shrink_last, unset_bytes, fill_last,
}

shrink_last-cons :
    (k : ℕ) (b : Block) (x : List Block)
    → 0 < length x
    → shrink_last k (b ∷ x) ≡ b ∷ shrink_last k x
unfolding shrink_last
shrink_last-cons k b [] h = absurd (omega (arith, h))
shrink_last-cons k b (c ∷ x) h = refl

take_nil : (n : ℕ) → take {A = ℕ} n [] ≡ []
take_nil zero = refl
take_nil (suc n) = refl

take_into :
    (c u : List ℕ) (k : ℕ)
    → k ≤ length u
    → take (length (c ++ u) - k) (c ++ u) ≡ c ++ take (length u - k) u
take_into [] u k h = refl
take_into (y ∷ c) u k h =
    let step : length ((y ∷ c) ++ u) - k ≡ suc (length (c ++ u) - k) =
      omega (arith, length-append c u) in
    rw step (ap (λ l. y ∷ l) (take_into c u k h))

pub last_room-pos : (bs : List Block) → All Fits bs → last_full bs ≡ false → 0 < last_room bs
unfolding last_full last_room
last_room-pos [] f e = absurd (ground arith)
last_room-pos (b ∷ []) f e = ground (arith, f.0)
last_room-pos (b ∷ c ∷ bs) f e = last_room-pos (c ∷ bs) f.1 e

new_block : ℕ → Block
new_block capacity = record { content = []; capacity = capacity }

bytes_of-append : (xs ys : List Block) → bytes_of (xs ++ ys) ≡ bytes_of xs ++ bytes_of ys
bytes_of-append [] ys = refl
bytes_of-append (b ∷ xs) ys =
    ap (λ l. b.content ++ l) (bytes_of-append xs ys)
    ∙ sym (append_assoc b.content (bytes_of xs) (bytes_of ys))

-- A block without data that is put behind the others.
pub bytes_of-new :
    (bs : List Block) (capacity : ℕ)
    → bytes_of (bs ++ record { content = []; capacity = capacity } ∷ []) ≡ bytes_of bs
bytes_of-new bs capacity =
    bytes_of-append bs (record { content = []; capacity = capacity } ∷ [])
    ∙ append-nil (bytes_of bs)

pub last_full-new :
    (bs : List Block) (capacity : ℕ)
    → 0 < capacity
    → last_full (bs ++ record { content = []; capacity = capacity } ∷ []) ≡ false
unfolding last_full
last_full-new [] capacity h = ground arith
last_full-new (b ∷ []) capacity h = ground arith
last_full-new (b ∷ c ∷ bs) capacity h = last_full-new (c ∷ bs) capacity h

pub All-Fits-new :
    (bs : List Block) (capacity : ℕ)
    → All Fits bs
    → All Fits (bs ++ record { content = []; capacity = capacity } ∷ [])
All-Fits-new [] capacity f = (omega arith, tt)
All-Fits-new (b ∷ bs) capacity f = (f.0, All-Fits-new bs capacity f.1)

module _ (unset : ℕ → ℕ) where
  pub length-unset_bytes : (n : ℕ) → length (unset_bytes unset n) ≡ n
  length-unset_bytes zero = refl
  length-unset_bytes (suc n) = omega (arith, length-unset_bytes n)

  length-fill_last : (bs : List Block) → length (fill_last unset bs) ≡ length bs
  unfolding fill_last
  length-fill_last [] = refl
  length-fill_last (b ∷ []) = refl
  length-fill_last (b ∷ c ∷ bs) = omega (arith, length-fill_last (c ∷ bs))

  pub fill_last-bytes :
      (bs : List Block)
      → bytes_of (fill_last unset bs) ≡ bytes_of bs ++ unset_bytes unset (last_room bs)
  unfolding fill_last last_room
  fill_last-bytes [] = refl
  fill_last-bytes (b ∷ []) =
      let u = unset_bytes unset (b.capacity - length b.content) in
      append-nil (b.content ++ u) ∙ ap (λ l. l ++ u) (sym (append-nil b.content))
  fill_last-bytes (b ∷ c ∷ bs) =
      ap (λ l. b.content ++ l) (fill_last-bytes (c ∷ bs))
      ∙ sym (append_assoc b.content (bytes_of (c ∷ bs)) (unset_bytes unset (last_room (c ∷ bs))))

  pub shrink_last-bytes :
      (k : ℕ) (bs : List Block)
      → k ≤ last_room bs
      → bytes_of (shrink_last k (fill_last unset bs))
        ≡ bytes_of bs ++ take (last_room bs - k) (unset_bytes unset (last_room bs))
  unfolding fill_last last_room shrink_last
  shrink_last-bytes k [] h = sym (take_nil (0 - k))
  shrink_last-bytes k (b ∷ []) h =
      let room = b.capacity - length b.content in
      let u = unset_bytes unset room in
      let size = length-unset_bytes room in
      append-nil (take (length (b.content ++ u) - k) (b.content ++ u))
      ∙ take_into b.content u k (omega arith)
      ∙ ap (λ n. b.content ++ take (n - k) u) size
      ∙ ap (λ l. l ++ take (room - k) u) (sym (append-nil b.content))
  shrink_last-bytes k (b ∷ c ∷ bs) h =
      let long : 0 < length (fill_last unset (c ∷ bs)) = omega (arith, length-fill_last (c ∷ bs)) in
      ap bytes_of (shrink_last-cons k b (fill_last unset (c ∷ bs)) long)
      ∙ ap (λ l. b.content ++ l) (shrink_last-bytes k (c ∷ bs) h)
      ∙ sym (
          append_assoc b.content (bytes_of (c ∷ bs))
            (take (last_room (c ∷ bs) - k) (unset_bytes unset (last_room (c ∷ bs)))))

  pub fill_last-Fits : (bs : List Block) → All Fits bs → All Fits (fill_last unset bs)
  unfolding fill_last
  fill_last-Fits [] f = tt
  fill_last-Fits (b ∷ []) f =
      let room = b.capacity - length b.content in
      let size = length-append b.content (unset_bytes unset room) in
      let added = length-unset_bytes room in let fit = f.0 in (omega arith, tt)
  fill_last-Fits (b ∷ c ∷ bs) f = (f.0, fill_last-Fits (c ∷ bs) f.1)

  pub shrink_last-Fits : (k : ℕ) (bs : List Block) → All Fits bs → All Fits (shrink_last k bs)
  unfolding shrink_last
  shrink_last-Fits k [] f = tt
  shrink_last-Fits k (b ∷ []) f =
      let fit = f.0 in let size = length-take (length b.content - k) b.content in (omega arith, tt)
  shrink_last-Fits k (b ∷ c ∷ bs) f = (f.0, shrink_last-Fits k (c ∷ bs) f.1)
