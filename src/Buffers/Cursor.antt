-- ===== src/Buffers/Cursor.antt =====
-- What a read buffer has left, and what is skipped.
use gb_server.Base.{
  ltb, leb, ltb→lt, lt→ltb, le→leb, lt→leb_false, ltb_false→le, Bool-cases, length, drop, All,
  length-append, length-drop, ℕ, zero, suc, ◌+◌, ◌-◌, ◌≤◌, ◌<◌, ◌≡◌, refl, sym, ap, ◌∙◌, inl, inr,
  Bool, Option, some, List, [], ◌∷◌, ◌++◌, arith,
}
use gb_server.Buffers.Read.{
  BufferHandle, ReadBuffer, next_from, next_read, step_back, back_up_read, skip_next, skip_loop,
  skip,
}
use gb_server.Buffers.Reserve.{suc_not_zero}

abbrev pub all_bytes : List BufferHandle → List ℕ
all_bytes [] = []
all_bytes (h ∷ hs) = h.bytes ++ all_bytes hs

abbrev pub left_from : ℕ → List BufferHandle → List ℕ
left_from i [] = []
left_from i (h ∷ hs) = drop i h.bytes ++ all_bytes hs

-- The bytes from the cursor on.
abbrev pub left : ReadBuffer → List ℕ
left r = left_from r.cur_pos r.rest

abbrev pub Filled : BufferHandle → Type 0
Filled h = 0 < length h.bytes

abbrev pub Inside : ℕ → List BufferHandle → Type 0
Inside i [] = i ≡ 0
Inside i (h ∷ hs) = i < length h.bytes

-- No block is empty, and the cursor is in the block at which it stands.
pub record IsReading (r : ReadBuffer) : Type 0 where
  pub filled : All Filled r.rest
  pub inside : Inside r.cur_pos r.rest

drop_nil : (n : ℕ) → drop {A = ℕ} n [] ≡ []
drop_nil zero = refl
drop_nil (suc n) = refl

drop-append : (n : ℕ) (xs ys : List ℕ) → n ≤ length xs → drop n (xs ++ ys) ≡ drop n xs ++ ys
drop-append zero xs ys h = refl
drop-append (suc n) [] ys h = absurd (omega (arith, h))
drop-append (suc n) (x ∷ xs) ys h = drop-append n xs ys (omega arith)

drop_behind : (n : ℕ) (xs ys : List ℕ) → length xs ≤ n → drop n (xs ++ ys) ≡ drop (n - length xs) ys
drop_behind n [] ys h = ap (λ k. drop k ys) (omega arith)
drop_behind zero (x ∷ xs) ys h = absurd (omega (arith, h))
drop_behind (suc n) (x ∷ xs) ys h =
    let same : suc n - length (x ∷ xs) ≡ n - length xs = omega arith in
    rw same (drop_behind n xs ys (omega arith))

drop-drop : (m n : ℕ) (xs : List ℕ) → drop m (drop n xs) ≡ drop (n + m) xs
drop-drop m zero xs = ap (λ k. drop k xs) (omega arith)
drop-drop m (suc n) [] = drop_nil m ∙ sym (drop_nil (suc n + m))
drop-drop m (suc n) (x ∷ xs) =
    let same : suc n + m ≡ suc (n + m) = omega arith in rw same (drop-drop m n xs)

left_from-zero : (hs : List BufferHandle) → left_from 0 hs ≡ all_bytes hs
left_from-zero [] = refl
left_from-zero (h ∷ hs) = refl

pub Inside-zero : (hs : List BufferHandle) → All Filled hs → Inside 0 hs
Inside-zero [] f = refl
Inside-zero (h ∷ hs) f = f.0

-- What a skip leaves.
pub record Skipped (count : ℕ) (r : ReadBuffer) (o : Option (Bool × ReadBuffer)) : Type 0 where
  pub after : ReadBuffer
  pub result : o ≡ some (leb count (length (left r)), after)
  pub rest_left : left after ≡ drop count (left r)
  pub reading : IsReading after

passed_block : BufferHandle → List BufferHandle → ReadBuffer → ReadBuffer
passed_block h hs r = record r {
  passed = h ∷ r.passed;
  rest = hs;
  cur_pos = 0;
  last_bytes = length (drop r.cur_pos h.bytes);
  read_bytes = r.read_bytes + length (drop r.cur_pos h.bytes);
}

stepped_back : ℕ → BufferHandle → List BufferHandle → ReadBuffer → ReadBuffer
stepped_back k h hs r = record r {
  rest = h ∷ hs;
  cur_pos = length h.bytes - k;
  last_bytes = 0;
  read_bytes = r.read_bytes + length (drop r.cur_pos h.bytes) - k;
}

back_up_read-block :
    (k : ℕ) (h : BufferHandle) (hs : List BufferHandle) (r : ReadBuffer)
    → 0 < k
    → k ≤ length (drop r.cur_pos h.bytes)
    → back_up_read k (passed_block h hs r) ≡ some (stepped_back k h hs r)
unfolding back_up_read step_back passed_block stepped_back
back_up_read-block k h hs r p q =
    rw
      (
        lt→ltb 0 k p,
        lt→ltb 0 (length (drop r.cur_pos h.bytes)) (omega arith),
        le→leb k (length (drop r.cur_pos h.bytes)) q,
      )
      refl

leb_shift : (n s m : ℕ) → s ≤ n → leb (n - s) m ≡ leb n (s + m)
leb_shift n s m h = ground arith

skip_loop-Skipped :
    (fuel count : ℕ) (r : ReadBuffer) (l : List BufferHandle)
    → length l < fuel
    → All Filled l
    → Inside r.cur_pos l
    → Skipped count (record r { rest = l }) (skip_loop fuel count (record r { rest = l }))
unfolding skip_loop skip_next next_read next_from passed_block stepped_back
skip_loop-Skipped zero count r l h f i = absurd (omega (arith, h))
skip_loop-Skipped (suc fuel) zero r l h f i = record {
  after = record r { rest = l; last_bytes = 0 };
  result = rw (le→leb 0 (length (left_from r.cur_pos l)) (omega arith)) refl;
  rest_left = refl;
  reading = record { filled = f; inside = i };
}
skip_loop-Skipped (suc fuel) (suc count) r [] h f i = record {
  after = record r { rest = []; last_bytes = 0 };
  result =
      rw
        (
          lt→ltb 0 (suc count) (omega arith),
          suc_not_zero count,
          lt→leb_false (suc count) 0 (omega arith),
        )
        refl;
  rest_left = sym (drop_nil (suc count));
  reading = record { filled = tt; inside = i };
}
skip_loop-Skipped (suc fuel) (suc count) r (x ∷ hs) h f i =
    let here = drop r.cur_pos x.bytes in
    let size = length here in
    let measured : size ≡ length x.bytes - r.cur_pos = length-drop r.cur_pos x.bytes in
    let total = length-append here (all_bytes hs) in
    let positive = lt→ltb 0 (suc count) (omega arith) in
    elim (Bool-cases (ltb (suc count) size)) [
      | inl inside ↦
          let lt = ltb→lt (suc count) size inside in
          let k = size - suc count in
          let place : length x.bytes - k ≡ r.cur_pos + suc count = omega arith in
          record {
            after = stepped_back k x hs r;
            result =
                rw
                  (
                    positive,
                    inside,
                    back_up_read-block k x hs r (omega arith) (omega arith),
                    le→leb (suc count) (length (here ++ all_bytes hs)) (omega arith),
                  )
                  refl;
            rest_left =
                ap (λ n. drop n x.bytes ++ all_bytes hs) place
                ∙ ap (λ l. l ++ all_bytes hs) (sym (drop-drop (suc count) r.cur_pos x.bytes))
                ∙ sym (drop-append (suc count) here (all_bytes hs) (omega arith));
            reading = record { filled = f; inside = omega arith };
          }
      | inr beyond ↦
          let le = ltb_false→le (suc count) size beyond in
          let r1 : ReadBuffer = passed_block x hs r in
          let go =
            skip_loop-Skipped fuel (suc count - size) r1 hs (omega arith) f.1
              (Inside-zero hs f.1) in
          let zero_left = ap length (left_from-zero hs) in
          let same_answer : leb (suc count - size) (length (left_from 0 hs))
              ≡ leb (suc count) (length (here ++ all_bytes hs)) =
            ap (λ n. leb (suc count - size) n) zero_left
            ∙ leb_shift (suc count) size (length (all_bytes hs)) le
            ∙ ap (λ n. leb (suc count) n) (sym total) in
          record {
            after = go.after;
            result = rw (positive, beyond) (go.result ∙ ap (λ b. some (b, go.after)) same_answer);
            rest_left =
                go.rest_left
                ∙ ap (λ l. drop (suc count - size) l) (left_from-zero hs)
                ∙ sym (drop_behind (suc count) here (all_bytes hs) le);
            reading = go.reading;
          }
    ]

-- Skip moves the cursor of a read buffer forward by the bytes asked for, or to the end, and says
-- whether there were so many; the loop ends, and the cursor stays inside a block.
pub skip-Skipped : (count : ℕ) (r : ReadBuffer) → IsReading r → Skipped count r (skip count r)
unfolding skip
skip-Skipped count r h =
    skip_loop-Skipped (suc (length r.rest)) count r r.rest (omega arith) h.filled h.inside
