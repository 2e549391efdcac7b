-- ===== src/Buffers/Reserve.antt =====
-- `Reserve` and the bytes of a write buffer.
use gb_server.Base.{
  ltb, ◌==◌, ltb→lt, ltb_false→le, Bool-cases, pow_pos, length, take, All, length-append,
  length-take, ℕ, zero, suc, ◌+◌, ◌-◌, ◌≤◌, ◌<◌, ◌≡◌, refl, sym, ap, ◌∙◌, inl, inr, Bool, true,
  false, Option, some, List, [], ◌∷◌, ◌++◌, append_assoc, append-nil, arith,
}
use mathlib.Core.Path.{subst}
use gb_server.Buffers.Blocks.{
  last_room-pos, bytes_of-new, last_full-new, All-Fits-new, length-unset_bytes, fill_last-bytes,
  shrink_last-bytes, fill_last-Fits, shrink_last-Fits,
}
use gb_server.Buffers.SetData.{Fits}
use gb_server.Buffers.Write.{
  WriteBuffer, block_size, bytes_of, last_full, last_room, shrink_last, unset_bytes, fill_last,
  extend, back_up, use_last, use_extended, next, reserve_next, reserve_loop,
}
use Prim.Native.Nat.{min}

-- The blocks are no longer than their capacity, and `ByteCount` is the number of their bytes.
pub record IsBuffer (w : WriteBuffer) : Type 0 where
  pub fits : All Fits w.buf_list
  pub counts : w.write_bytes ≡ length (bytes_of w.buf_list)

-- `count` bytes of any value behind the bytes of the buffer.
pub record Longer (count : ℕ) (w w' : WriteBuffer) : Type 0 where
  pub padding : List ℕ
  pub size : length padding ≡ count
  pub bytes : bytes_of w'.buf_list ≡ bytes_of w.buf_list ++ padding
  pub ok : IsBuffer w'

Longer-trans : (m n : ℕ) (u v w : WriteBuffer) → Longer m u v → Longer n v w → Longer (m + n) u w
Longer-trans m n u v w a b =
    let first = a.size in
    let second = b.size in
    record {
      padding = a.padding ++ b.padding;
      size = omega (arith, length-append a.padding b.padding);
      bytes =
          b.bytes
          ∙ ap (λ l. l ++ b.padding) a.bytes
          ∙ append_assoc (bytes_of u.buf_list) a.padding b.padding;
      ok = b.ok;
    }

pub suc_not_zero : (n : ℕ) → (suc n == 0) ≡ false
suc_not_zero n = ground arith

module _ (unset : ℕ → ℕ) (memory : ℕ → Bool) where
  use_last-Longer :
      (w : WriteBuffer) → IsBuffer w → Longer (last_room w.buf_list) w (use_last unset memory w).1
  unfolding use_last
  use_last-Longer w r =
      let room = last_room w.buf_list in
      let pad = unset_bytes unset room in
      let old = r.counts in
      let grown = fill_last-bytes unset w.buf_list in
      let sum : length (bytes_of (fill_last unset w.buf_list))
          ≡ length (bytes_of w.buf_list ++ pad) =
        ap length grown in
      record {
        padding = pad;
        size = length-unset_bytes unset room;
        bytes = grown;
        ok = record {
          fits = fill_last-Fits unset w.buf_list r.fits;
          counts =
              omega (arith, length-append (bytes_of w.buf_list) pad, length-unset_bytes unset room);
        };
      }

  -- A part of what `Next` has handed out is given back.
  back_up-Longer :
      (k : ℕ) (w : WriteBuffer)
      → IsBuffer w
      → k ≤ last_room w.buf_list
      → Longer (last_room w.buf_list - k) w (back_up k (use_last unset memory w).1)
  unfolding use_last back_up
  back_up-Longer k w r h =
      let room = last_room w.buf_list in
      let all = unset_bytes unset room in
      let pad = take (room - k) all in
      let old = r.counts in
      let total = length-unset_bytes unset room in
      let cut : length pad ≡ min (room - k) (length all) = length-take (room - k) all in
      let left : length pad ≡ room - k = omega arith in
      let grown = shrink_last-bytes unset k w.buf_list h in
      let sum : length (bytes_of (shrink_last k (fill_last unset w.buf_list)))
          ≡ length (bytes_of w.buf_list ++ pad) =
        ap length grown in
      record {
        padding = pad;
        size = left;
        bytes = grown;
        ok = record {
          fits =
              shrink_last-Fits unset k (fill_last unset w.buf_list)
                (fill_last-Fits unset w.buf_list r.fits);
          counts = omega (arith, length-append (bytes_of w.buf_list) pad);
        };
      }

  -- `Next` hands out the room in the last block of a buffer with the same bytes.
  record Prepared (w : WriteBuffer) : Type 0 where
    before : WriteBuffer
    result : next unset memory w ≡ use_last unset memory before
    same : bytes_of before.buf_list ≡ bytes_of w.buf_list
    ready : IsBuffer before
    room : 0 < last_room before.buf_list

  block_size-pos : (factor : ℕ) → 0 < block_size factor - 8
  block_size-pos factor = omega (arith, pow_pos factor)

  extended : ℕ → WriteBuffer → WriteBuffer
  extended factor w = record w {
    buf_list = w.buf_list ++ record { content = []; capacity = block_size factor - 8 } ∷ [];
    total_block_size = w.total_block_size + block_size factor;
    total_capacity = w.total_capacity + (block_size factor - 8);
  }

  next-Prepared : (w : WriteBuffer) → ((n : ℕ) → memory n ≡ true) → IsBuffer w → Prepared w
  unfolding next use_extended extend extended
  next-Prepared w enough r = elim (Bool-cases (last_full w.buf_list)) [
    | inl full ↦
        let factor = min 9 (length w.buf_list + w.base_block_factor) in
        let w0 : WriteBuffer = extended factor w in
        let same = bytes_of-new w.buf_list (block_size factor - 8) in
        let fits = All-Fits-new w.buf_list (block_size factor - 8) r.fits in
        let fresh = last_full-new w.buf_list (block_size factor - 8) (block_size-pos factor) in
        record {
          before = w0;
          result = rw (full, enough (length w.buf_list)) refl;
          same = same;
          ready = record { fits = fits; counts = r.counts ∙ sym (ap length same) };
          room = last_room-pos w0.buf_list fits fresh;
        }
    | inr open_still ↦ record {
      before = w;
      result = rw open_still refl;
      same = refl;
      ready = r;
      room = last_room-pos w.buf_list r.fits open_still;
    }
  ]

  pub record Reserved (count : ℕ) (w : WriteBuffer) (o : Option (Bool × WriteBuffer)) : Type 0 where
    pub after : WriteBuffer
    pub result : o ≡ some (true, after)
    pub longer : Longer count w after

  Longer-same :
      (count : ℕ) (u v w : WriteBuffer)
      → bytes_of u.buf_list ≡ bytes_of v.buf_list
      → Longer count u w
      → Longer count v w
  Longer-same count u v w e l = record {
    padding = l.padding;
    size = l.size;
    bytes = l.bytes ∙ ap (λ b. b ++ l.padding) e;
    ok = l.ok;
  }

  reserve_next-room :
      (again : ℕ → WriteBuffer → Option (Bool × WriteBuffer)) (count : ℕ) (w : WriteBuffer)
      → ltb count (last_room w.buf_list) ≡ true
      → reserve_next unset memory again count (use_last unset memory w)
        ≡ some (true, back_up (last_room w.buf_list - count) (use_last unset memory w).1)
  unfolding reserve_next use_last
  reserve_next-room again count w h = rw h refl

  reserve_next-again :
      (again : ℕ → WriteBuffer → Option (Bool × WriteBuffer)) (count : ℕ) (w : WriteBuffer)
      → ltb count (last_room w.buf_list) ≡ false
      → reserve_next unset memory again count (use_last unset memory w)
        ≡ again (count - last_room w.buf_list) (use_last unset memory w).1
  unfolding reserve_next use_last
  reserve_next-again again count w h = rw h refl

  pub reserve_loop-Reserved :
      (fuel count : ℕ) (w : WriteBuffer)
      → ((n : ℕ) → memory n ≡ true)
      → count < fuel
      → IsBuffer w
      → Reserved count w (reserve_loop unset memory fuel count w)
  unfolding reserve_loop
  reserve_loop-Reserved zero count w enough h r = absurd (omega (arith, h))
  reserve_loop-Reserved (suc fuel) zero w enough h r = record {
    after = w;
    result = refl;
    longer = record {
      padding = [];
      size = refl;
      bytes = sym (append-nil (bytes_of w.buf_list));
      ok = r;
    };
  }
  reserve_loop-Reserved (suc fuel) (suc count) w enough h r =
      let p = next-Prepared w enough r in
      let w0 : WriteBuffer = p.before in
      let room = last_room w0.buf_list in
      let some_room = p.room in
      let used : WriteBuffer = (use_last unset memory w0).1 in
      let filled = use_last-Longer w0 p.ready in
      elim (Bool-cases (ltb (suc count) room)) [
        | inl more_room ↦
            let lt = ltb→lt (suc count) room more_room in
            let all : room - (room - suc count) ≡ suc count = omega arith in
            record {
              after = back_up (room - suc count) used;
              result =
                  rw (suc_not_zero count, p.result)
                    (reserve_next-room (reserve_loop unset memory fuel) (suc count) w0 more_room);
              longer = Longer-same (suc count) w0 w _ p.same (
                  subst (λ n. Longer n w0 (back_up (room - suc count) used)) all
                    (back_up-Longer (room - suc count) w0 p.ready (omega arith)));
            }
        | inr too_small ↦
            let le = ltb_false→le (suc count) room too_small in
            let rest =
              reserve_loop-Reserved fuel (suc count - room) used enough (omega arith) filled.ok in
            let sum : room + (suc count - room) ≡ suc count = omega arith in
            record {
              after = rest.after;
              result =
                  rw (suc_not_zero count, p.result)
                    (reserve_next-again (reserve_loop unset memory fuel) (suc count) w0 too_small
                      ∙ rest.result);
              longer = Longer-same (suc count) w0 w rest.after p.same (
                  subst (λ n. Longer n w0 rest.after) sum
                    (Longer-trans room (suc count - room) w0 used rest.after filled rest.longer));
            }
      ]
